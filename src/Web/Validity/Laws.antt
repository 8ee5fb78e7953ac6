-- ===== src/Web/Validity/Laws.antt =====
-- The validity check and the check of the request handlers agree, and both forget a person who is
-- revoked.
use python_rasenmaeher_api.Base.{
  ◌||◌, ◌&&◌, String, ◌≡◌, true, false, not, none, some, List, [], ◌∷◌, arith, ◌==◌,
}
use python_rasenmaeher_api.Exec.{ok, is_err, is_not_found}
use python_rasenmaeher_api.Settings.{RmSettings, valid_product_cns}
use python_rasenmaeher_api.Db.{checked, Store, World}
use python_rasenmaeher_api.Db.People.{by_callsign}
use python_rasenmaeher_api.Web.Auth.{
  default_disallowed, mtls_type, Request, mtls_or_jwt, valid_user, is_product, person_of, load_user,
  check_roles, db_failure, no_user, is_subset, check_payload, get_dn,
}
use python_rasenmaeher_api.Web.Validity.{is_valid, is_product_cn}
use python_rasenmaeher_api.Json.{mem_text}
use python_rasenmaeher_api.Db.People.Roles.{roles_set}

-- A request with the certificate of a callsign.
abbrev pub request_of : String → Request
request_of callsign = record { mtls = some (("CN", callsign) ∷ []); jwt = none }

is_product_cn-listed :
    (settings : RmSettings) (callsign : String) (cns : List String)
    → valid_product_cns settings ≡ ok cns
    → is_product_cn settings callsign ≡ mem_text callsign cns
unfolding is_product_cn
is_product_cn-listed settings callsign cns h = ground arith

module _ (w : World) where
  is_product-listed :
      (callsign : String) (s : Store) (cns : List String)
      → valid_product_cns w.settings ≡ ok cns
      → is_product w mtls_type callsign s ≡ (ok (mem_text callsign cns), s)
  unfolding is_product
  is_product-listed callsign s cns h = ground arith

  is_valid-listed :
      (callsign : String) (s : Store) (cns : List String)
      → valid_product_cns w.settings ≡ ok cns
      → (callsign == w.settings.mtls_client_cert_cn) ≡ false
      → is_valid w callsign s
        ≡ (ok (mem_text callsign cns || not (is_err (by_callsign w callsign false s).0)), s)
  unfolding is_valid by_callsign is_not_found checked
  is_valid-listed callsign s cns h1 h2 =
      ground (arith, is_product_cn-listed w.settings callsign cns h1)

  person_of-live :
      (callsign : String) (s : Store)
      → is_err (person_of w true [] callsign s).0 ≡ is_err (by_callsign w callsign false s).0
  unfolding person_of load_user check_roles db_failure no_user is_subset by_callsign is_not_found
      checked roles_set
  person_of-live callsign s = ground arith

  mtls_or_jwt-request :
      (callsign : String) (s : Store)
      → mtls_or_jwt default_disallowed true (request_of callsign) s
        ≡ (ok (some (record { type = mtls_type; userid = some callsign })), s)
  unfolding mtls_or_jwt get_dn
  mtls_or_jwt-request callsign s = ground arith

  valid_user-listed :
      (callsign : String) (s : Store) (cns : List String)
      → valid_product_cns w.settings ≡ ok cns
      → (callsign == "") ≡ false
      → is_err (valid_user w true [] (request_of callsign) s).0
        ≡ (not (mem_text callsign cns) && is_err (by_callsign w callsign false s).0)
  unfolding valid_user check_payload
  valid_user-listed callsign s cns h1 h2 = ground (
    arith,
    mtls_or_jwt-request callsign s,
    is_product-listed callsign s cns h1,
    person_of-live callsign s,
  )

  -- For a callsign that is not empty and not the service's own name, with a readable manifest, the
  -- validity check answers without changing anything, and it says yes exactly when `ValidUser`
  -- without required roles lets a request with the certificate of that callsign pass.
  pub is_valid-valid_user :
      (callsign : String) (s : Store) (cns : List String)
      → valid_product_cns w.settings ≡ ok cns
      → (callsign == "") ≡ false
      → (callsign == w.settings.mtls_client_cert_cn) ≡ false
      → is_valid w callsign s
        ≡ (ok (not (is_err (valid_user w true [] (request_of callsign) s).0)), s)
  is_valid-valid_user callsign s cns h1 h2 h3 =
      ground (arith, is_valid-listed callsign s cns h1 h3, valid_user-listed callsign s cns h1 h2)
