-- ===== src/Startup/Console.antt =====
-- src/rasenmaeher_api/console.py: the commands of the service's command line. A command returns its
-- exit code; what it prints is left out. `connect` is the start-up of the database.
pub mod Laws
use python_rasenmaeher_api.Db.People.Pfx
use python_rasenmaeher_api.Base.{
  ℕ, zero, suc, ◌+◌, ◌-◌, ◌≤◌, ◌<◌, String, ◌≡◌, refl, sym, ap, ◌∙◌, ◌≢◌, ◌↔◌, ◌⊎◌, inl, inr, Bool,
  true, false, not, ◌&&◌, ◌||◌, Option, none, some, List, [], ◌∷◌, ◌++◌, map, arith, ◌==◌, eq_iff,
  eq_refl, eqb, ltb, if◌then◌else◌, eqb_refl, Bool-cases, Option-cases, is_some, All, find_first,
  where_rows, update_rows, any,
}
use python_rasenmaeher_api.Exec.{
  Error, not_found, deleted, callsign_reserved, pool_inactive, forbidden_operation, token_reuse,
  backend_error, integrity_error, runtime_error, value_error, key_error, unbound_local_error,
  attribute_error, file_exists_error, http, Result, ok, err, is_err, is_not_found, is_value_error,
  is_http_exception, status_code, Exec, pure, raise, gets, or_raise, on_error, except_for, ◌>>=◌,
  ◌>>◌, modify, raise_if,
}
use python_rasenmaeher_api.Db.{call, Person, Action, World}
use python_rasenmaeher_api.Json.{
  object, insert, bool, field, str, end, truthy, Dict, Fields, lookup, Json,
}
use python_rasenmaeher_api.Web.Health.{BasicHealthCheckResponse, AllProductsHealthCheckResponse}
use python_rasenmaeher_api.Db.LoginCodes.{create_for_claims}
use python_rasenmaeher_api.Db.People.Roles.{assign_role}
use python_rasenmaeher_api.Db.People.Creation.{create_with_cert}
use python_rasenmaeher_api.Db.People.{by_callsign}
use python_rasenmaeher_api.Db.People.Revocation.{revoke}
use python_rasenmaeher_api.Cert.{named}

module _ (w : World) where
  -- `add_code`: without claims the command exits before the database is called.
  unfoldable pub add_code : Action (Unit {0}) → Dict → Action ℕ
  add_code connect [] = pure 1
  add_code connect (claim ∷ claims) = do
    connect
    create_for_claims w (claim ∷ claims) none
    connect
    pure 0

  abbrev pub grant_admin : Bool → Person → Action (Unit {0})
  grant_admin false person = pure tt
  grant_admin true person = do assign_role w person "admin"; pure tt

  unfoldable pub create_user : String → Bool → Action Person
  create_user callsign admin = do
    person ← create_with_cert w callsign none none
    grant_admin admin person
    pure person

  -- `get_pfx`: the user is created if there is none with the callsign.
  unfoldable pub get_pfx : Action (Unit {0}) → String → Bool → Action ℕ
  unfolding create_user
  get_pfx connect callsign admin = do
    connect
    person ← except_for is_not_found (by_callsign w callsign false) (create_user callsign admin)
    Pfx.create_pfx w person
    pure 0

  unfoldable pub revoke_user : Action (Unit {0}) → String → String → Action ℕ
  revoke_user connect callsign reason = do
    connect
    person ← by_callsign w callsign false
    revoke w person (named reason)
    pure 0

  -- `get_jwt` and `get_adminjwt`; the nonce is a UUID as text.
  unfoldable pub with_nonce : (ℕ → String) → Bool → Dict → Action Dict
  with_nonce text_of false claims = pure claims
  with_nonce text_of true claims = do
    nonce ← call w.uuid4
    pure (insert "nonce" (str (text_of nonce)) claims)

  unfoldable pub issue_claims : Action (Unit {0}) → Dict → Action ℕ
  issue_claims init [] = pure 1
  issue_claims init (claim ∷ claims) = do init; call (λ n. w.issue n (claim ∷ claims)); pure 0

  unfoldable pub get_jwt : (ℕ → String) → Action (Unit {0}) → Bool → Dict → Action ℕ
  unfolding with_nonce issue_claims
  get_jwt text_of init nonce claims = do
    extended ← with_nonce text_of nonce claims
    issue_claims init extended

-- `payload["healthcheck"] != "success"`
abbrev pub check_word : Option Json → Result ℕ
check_word none = err key_error
check_word (some (str word)) = ok (if word == "success" then 0 else 1)
check_word (some _) = ok 1

-- `do_http_healthcheck`: the exit code for the status and the JSON object of the response.
unfoldable pub do_http_healthcheck : Bool → ℕ → Dict → Result ℕ
unfolding lookup truthy
do_http_healthcheck services status payload =
    if not (eqb status 200) then ok status else elim services [
      | false ↦ check_word (lookup "healthcheck" payload)
      | true ↦ elim (lookup "all_ok" payload) [
        | none ↦ err key_error
        | some all_ok ↦ if truthy all_ok then check_word (lookup "healthcheck" payload) else ok 1
      ]
    ]

-- The JSON objects of the two responses.
unfoldable pub product_fields : List (String × Bool) → Fields
product_fields [] = end
product_fields ((name, healthy) ∷ products) = field name (bool healthy) (product_fields products)

unfoldable pub dump_services : AllProductsHealthCheckResponse → Dict
unfolding product_fields
dump_services r = ("all_ok", bool r.all_ok) ∷ ("products", object (product_fields r.products)) ∷ []

unfoldable pub dump_basic : BasicHealthCheckResponse → Dict
dump_basic r =
    ("healthcheck", str r.healthcheck)
    ∷ ("dns", str r.dns)
    ∷ ("deployment", str r.deployment)
    ∷ ("version", str r.version)
    ∷ ("rm_version", str r.rm_version)
    ∷ []
