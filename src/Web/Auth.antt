-- ===== src/Web/Auth.antt =====
-- src/rasenmaeher_api/web/api/middleware: who sent the request. `MTLSHeader` and `JWTBearer` are
-- libraries: what they give for a request, without raising, is the request's `mtls` and `jwt`.
pub mod Laws
use python_rasenmaeher_api.Base.{
  ℕ, zero, suc, ◌+◌, ◌-◌, ◌≤◌, ◌<◌, String, ◌≡◌, refl, sym, ap, ◌∙◌, ◌≢◌, ◌↔◌, ◌⊎◌, inl, inr, Bool,
  true, false, not, ◌&&◌, ◌||◌, Option, none, some, List, [], ◌∷◌, ◌++◌, map, arith, ◌==◌, eq_iff,
  eq_refl, eqb, ltb, if◌then◌else◌, eqb_refl, Bool-cases, Option-cases, is_some, All, find_first,
  where_rows, update_rows, any,
}
use python_rasenmaeher_api.Exec.{
  db_error, Error, not_found, deleted, callsign_reserved, pool_inactive, forbidden_operation,
  token_reuse, backend_error, integrity_error, runtime_error, value_error, key_error,
  unbound_local_error, attribute_error, file_exists_error, http, Result, ok, err, is_err,
  is_not_found, is_value_error, is_http_exception, status_code, Exec, pure, raise, gets, or_raise,
  on_error, except_for, ◌>>=◌, ◌>>◌, modify, raise_if,
}
use python_rasenmaeher_api.Json.{Dict, Json, str, lookup, mem_text}
use python_rasenmaeher_api.Settings.{valid_product_cns}
use python_rasenmaeher_api.Db.{Person, Action, World}
use python_rasenmaeher_api.Db.People.{lift, by_callsign}
use python_rasenmaeher_api.Db.People.Roles.{roles_set}

abbrev pub DnDict : Type 0
DnDict = List (String × String)

-- `d.get(k)`
unfoldable pub get_dn : String → DnDict → Option String
get_dn k [] = none
get_dn k ((j, v) ∷ d) = if j == k then some v else get_dn k d

-- `payload.get("sub")`: in a JWT that was accepted the claim is a text, if it is there.
abbrev pub text_of : Option Json → Option String
text_of (some (str s)) = some s
text_of _ = none

abbrev pub jwt_sub : Dict → Option String
jwt_sub payload = text_of (lookup "sub" payload)

pub data MtlsOrJwtPayloadType : Type 0 where
  jwt_type mtls_type : MtlsOrJwtPayloadType

-- The payload itself is the request's.
pub record MtlsOrJwtPayload : Type 0 where
  pub type : MtlsOrJwtPayloadType
  pub userid : Option String

pub record Request : Type 0 where
  pub mtls : Option DnDict
  pub jwt : Option Dict

-- A dictionary that is there and not empty.
abbrev pub given : {A : Type 0} → Option (List A) → Option (List A)
given none = none
given (some []) = none
given (some (x ∷ xs)) = some (x ∷ xs)

-- `jwt_sub in self.disallow_jwt_sub`
abbrev pub is_disallowed : List String → Option String → Bool
is_disallowed disallow none = false
is_disallowed disallow (some sub) = mem_text sub disallow

abbrev pub mtls_payload : DnDict → MtlsOrJwtPayload
mtls_payload dn = record { type = mtls_type; userid = get_dn "CN" dn }

abbrev pub jwt_payload : Dict → MtlsOrJwtPayload
jwt_payload payload = record { type = jwt_type; userid = jwt_sub payload }

-- The default of `disallow_jwt_sub`.
abbrev pub default_disallowed : List String
default_disallowed = "tpadminsession" ∷ []

-- `MTLSorJWT.__call__`
unfoldable pub mtls_or_jwt : List String → Bool → Request → Action (Option MtlsOrJwtPayload)
mtls_or_jwt disallow auto_error request = elim (given request.mtls) [
  | some dn ↦ pure (some (mtls_payload dn))
  | none ↦ elim (given request.jwt) [
    | some payload ↦ do
      raise_if (is_disallowed disallow (jwt_sub payload)) (http 403)
      pure (some (jwt_payload payload))
    | none ↦ do raise_if auto_error (http 403); pure none
  ]
]

unfoldable pub is_subset : List String → List String → Bool
is_subset [] roles = true
is_subset (r ∷ rs) roles = mem_text r roles && is_subset rs roles

-- A caller who is not accepted.
unfoldable pub no_user : Bool → Action (Option Person)
no_user auto_error = do raise_if auto_error (http 403); pure none

-- `if not required.issubset(roles)`
unfoldable pub check_roles : Bool → List String → Person → Action (Option Person)
check_roles auto_error required person = do
  roles ← roles_set person
  raise_if (not (is_subset required roles) && auto_error) (http 403)
  pure (some person)

abbrev pub is_db_error : Error → Bool
is_db_error db_error = true
is_db_error e = is_not_found e

-- What `except DBError` makes of an exception.
unfoldable pub db_failure : Bool → Error → Action (Option Person)
db_failure auto_error e = elim (is_not_found e) [
  | true ↦ no_user auto_error
  | false ↦ raise (if is_db_error e then http 500 else e)
]

module _ (w : World) where
  unfoldable pub load_user : Bool → String → Action (Option Person)
  load_user auto_error userid =
      on_error (do person ← by_callsign w userid false; pure (some person)) (db_failure auto_error)

  -- A product's own certificate: no person stands for it.
  unfoldable pub is_product : MtlsOrJwtPayloadType → String → Action Bool
  is_product jwt_type userid = pure false
  is_product mtls_type userid = do
    cns ← lift (valid_product_cns w.settings)
    pure (mem_text userid cns)

  unfoldable pub person_of : Bool → List String → String → Action (Option Person)
  person_of auto_error required userid = do
    person ← load_user auto_error userid
    elim person [ none ↦ pure none | some p ↦ check_roles auto_error required p ]

  unfoldable pub check_payload : Bool → List String → MtlsOrJwtPayload → Action (Option Person)
  check_payload auto_error required payload = elim payload.userid [
    | none ↦ no_user auto_error
    | some userid ↦ elim (userid == "") [
      | true ↦ no_user auto_error
      | false ↦ do
        product ← is_product payload.type userid
        elim product [ true ↦ pure none | false ↦ person_of auto_error required userid ]
    ]
  ]

  -- `ValidUser.__call__`
  unfoldable pub valid_user : Bool → List String → Request → Action (Option Person)
  valid_user auto_error required request = do
    payload ← mtls_or_jwt default_disallowed auto_error request
    elim payload [ none ↦ no_user auto_error | some p ↦ check_payload auto_error required p ]

  -- The dependencies of a route for administrators: `MTLSorJWT(auto_error=True)` of the router and
  -- `ValidUser(auto_error=True, require_roles=["admin"])`; with the user id and the person.
  unfoldable pub admin : Request → Action (Option String × Option Person)
  admin request = do
    payload ← mtls_or_jwt default_disallowed true request
    person ← valid_user true ("admin" ∷ []) request
    pure (elim payload [ none ↦ none | some p ↦ p.userid ], person)

-- The dependency of the other routes of such a router, with the user id.
unfoldable pub authenticated : Request → Action (Option String)
authenticated request = do
  payload ← mtls_or_jwt default_disallowed true request
  pure (elim payload [ none ↦ none | some p ↦ p.userid ])
