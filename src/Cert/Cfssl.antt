-- ===== src/Cert/Cfssl.antt =====
-- The client of CFSSL: src/rasenmaeher_api/cert/cfssl. A service's answer is a parameter; so are the
-- authority key id and the serial number of a certificate. `get_ocsprest_crl` is a download only.
pub mod Laws
use Prim.Native.String
use python_rasenmaeher_api.Base.{
  ℕ, zero, suc, ◌+◌, ◌-◌, ◌≤◌, ◌<◌, String, ◌≡◌, refl, sym, ap, ◌∙◌, ◌≢◌, ◌↔◌, ◌⊎◌, inl, inr, Bool,
  true, false, not, ◌&&◌, ◌||◌, Option, none, some, List, [], ◌∷◌, ◌++◌, map, arith, ◌==◌, eq_iff,
  eq_refl, eqb, ltb, if◌then◌else◌, eqb_refl, Bool-cases, Option-cases, is_some, All, find_first,
  where_rows, update_rows, any,
}
use python_rasenmaeher_api.Exec.{
  db_locked, no_value, os_error, cert_error, no_result, error_result, type_error, Error, not_found,
  deleted, callsign_reserved, pool_inactive, forbidden_operation, token_reuse, backend_error,
  integrity_error, runtime_error, value_error, key_error, unbound_local_error, attribute_error,
  file_exists_error, http, Result, ok, err, is_err, is_not_found, is_value_error, is_http_exception,
  status_code, Exec, pure, raise, gets, or_raise, on_error, except_for, ◌>>=◌, ◌>>◌, modify,
  raise_if,
}
use python_rasenmaeher_api.Json.{
  nil, cons, bool, str, Items, array, num, end, null, field, object, truthy, Dict, lookup, Json,
}
use python_rasenmaeher_api.Db
use python_rasenmaeher_api.Db.{World, ReasonFlag, Task}
use python_rasenmaeher_api.Text.{remove_char}
use python_rasenmaeher_api.Cert.{ReasonTypes, validate_reason}
use python_rasenmaeher_api.Keycloak.Users.{of_fields}
use python_rasenmaeher_api.Db.People.{text_or_none}

-- The text of a response.
pub data Body : Type 0 where
  no_body not_json : Body
  json : Json → Body

-- A call fails with an `aiohttp.ClientError` or with a `TimeoutError` that is none (an `OSError`), or
-- is answered.
pub data Answer : Type 0 where
  client_error timed_out : Answer
  answered : Body → Answer

-- `error["code"] == 11000`
abbrev pub is_locked_code : Option Json → Result Bool
is_locked_code none = err key_error
is_locked_code (some (num n)) = ok (eqb n 11000)
is_locked_code (some _) = ok false

abbrev pub error_code : Json → Result Bool
error_code (object fields) = is_locked_code (lookup "code" (of_fields fields))
error_code _ = err type_error

-- The exception for a list of errors: the first one that says "locked" decides.
unfoldable pub errors_raise : Items → Error
unfolding lookup of_fields
errors_raise nil = error_result
errors_raise (cons error errors) =
    let rest = errors_raise errors in
    elim (error_code error) [ err e ↦ e | ok locked ↦ if locked then db_locked else rest ]

abbrev pub raise_errors : Json → Error
raise_errors (array errors) = errors_raise errors
raise_errors _ = type_error

abbrev pub truthy_value : Option Json → Option Json
truthy_value none = none
truthy_value (some v) = if truthy v then some v else none

abbrev pub result_of : Dict → Result Json
result_of d = elim (truthy_value (lookup "errors" d)) [
  | some errors ↦ err (raise_errors errors)
  | none ↦ elim (truthy_value (lookup "result" d)) [ none ↦ err no_result | some v ↦ ok v ]
]

abbrev pub result_of_object : Json → Result Json
result_of_object (object fields) = result_of (of_fields fields)
result_of_object _ = err attribute_error

unfoldable pub get_result : Body → Result Json
unfolding truthy lookup of_fields errors_raise
get_result no_body = err cert_error
get_result not_json = err cert_error
get_result (json payload) = if truthy payload then result_of_object payload else err cert_error

-- `result.get(key)`, as text
abbrev pub value_of : String → Json → Result String
value_of key (object fields) = elim (truthy_value (lookup key (of_fields fields))) [
  | some (str text) ↦ ok text
  | some _ ↦ err type_error
  | none ↦ err no_value
]
value_of key _ = err attribute_error

abbrev pub value_in : String → Result Json → Result String
value_in key (ok v) = value_of key v
value_in key (err e) = err e

unfoldable pub get_result_cert : Body → Result String
unfolding get_result truthy lookup of_fields
get_result_cert body = value_in "certificate" (get_result body)

unfoldable pub get_result_bundle : Body → Result String
unfolding get_result truthy lookup of_fields
get_result_bundle body = value_in "bundle" (get_result body)

-- `except aiohttp.ClientError`
abbrev pub of_answer : {A : Type 0} → (Body → Result A) → Answer → Result A
of_answer read client_error = err cert_error
of_answer read timed_out = err os_error
of_answer read (answered body) = read body

-- `except NoResult: pass`: the result of a revocation is empty.
abbrev pub no_result_expected : Result Json → Result (Unit {0})
no_result_expected (ok v) = ok tt
no_result_expected (err e) = elim e [ no_result ↦ ok tt | x ↦ err x ]

-- `except DBLocked`: the call is made again, by recursion. The outcome comes with the number of
-- the attempt; `none` is a run that is not over when the fuel is used up.
unfoldable pub is_locked : {A : Type 0} → Result A → Bool
is_locked (err db_locked) = true
is_locked _ = false

unfoldable pub retry_locked : {A : Type 0} → (ℕ → Result A) → ℕ → ℕ → Option (Result A × ℕ)
unfolding is_locked
retry_locked try_once zero attempt = none
retry_locked try_once (suc fuel) attempt =
    let rest = retry_locked try_once fuel (suc attempt) in
    if is_locked (try_once attempt) then rest else some (try_once attempt, attempt)

-- What an attempt meets: the session with the service's certificate, and the answer.
pub record Service : Type 0 where
  pub session : ℕ → Result (Unit {0})
  pub post : ℕ → String → Json → Answer

abbrev pub request_of : (ℕ → Result (Unit {0})) → {A : Type 0} → Result A → ℕ → Result A
request_of session r attempt = elim (session attempt) [ err e ↦ err e | ok _ ↦ r ]

abbrev pub sign_payload : String → Bool → Json
sign_payload csr bundle = object (
    field "certificate_request" (str csr)
      (field "profile" (str "client") (field "bundle" (bool bundle) end)))

-- A certificate, and the background task that was started.
abbrev pub with_refresh : Result String → Result (String × List Task)
with_refresh (ok resp) = ok (resp, python_rasenmaeher_api.Db.refresh_ocsp ∷ [])
with_refresh (err e) = err e

module _ (service : Service) (base_url ocsprest_base : String) where
  abbrev pub read_signed : Body → Result (String × List Task)
  read_signed body = with_refresh (get_result_cert body)

  -- One attempt of `sign_csr`, with the tasks that it starts.
  unfoldable pub sign_once : String → Bool → ℕ → Result (String × List Task)
  unfolding get_result_cert
  sign_once csr bundle attempt =
      request_of service.session
        (of_answer read_signed (
          service.post attempt (String.◌++◌ ocsprest_base "/api/v1/csr/sign")
            (sign_payload csr bundle)))
        attempt

  unfoldable pub sign_csr : ℕ → String → Bool → Option (Result (String × List Task) × ℕ)
  unfolding sign_once retry_locked
  sign_csr fuel csr bundle = retry_locked (sign_once csr bundle) fuel 0

  abbrev pub read_revoked : Body → Result (Unit {0})
  read_revoked body = no_result_expected (get_result body)

  -- `str(reason.value).replace("_", "")`: an underscore is 95.
  abbrev pub revoke_payload : String → String → ReasonFlag → Json
  revoke_payload serialno authority_key_id reason = object (
      field "serial" (str serialno) (
        field "authority_key_id" (str authority_key_id)
          (field "reason" (str (remove_char 95 reason.value)) end)))

  unfoldable pub revoke_once : String → String → ReasonFlag → ℕ → Result (Unit {0})
  unfolding get_result remove_char
  revoke_once serialno authority_key_id reason attempt =
      request_of service.session
        (of_answer read_revoked (
          service.post attempt (String.◌++◌ base_url "/api/v1/cfssl/revoke")
            (revoke_payload serialno authority_key_id reason)))
        attempt

  unfoldable pub revoke_serial :
      World → ℕ → String → String → ReasonTypes → Option (Result (Unit {0}) × ℕ)
  unfolding validate_reason revoke_once retry_locked
  revoke_serial w fuel serialno authority_key_id reason = elim (validate_reason w reason) [
    | err e ↦ some (err e, 0)
    | ok flag ↦ retry_locked (revoke_once serialno authority_key_id flag) fuel 0
  ]

  -- A certificate as its serial number and, if it has one, its authority's key id; `none` is the
  -- parser's `ValueError`.
  unfoldable pub revoke_pem :
      World → ℕ → Option (String × Option String) → ReasonTypes → Option (Result (Unit {0}) × ℕ)
  unfolding revoke_serial
  revoke_pem w fuel none reason = some (err value_error, 0)
  revoke_pem w fuel (some (serialno, kid)) reason = elim (text_or_none kid) [
    | none ↦ some (err value_error, 0)
    | some authority_key_id ↦ revoke_serial w fuel serialno authority_key_id reason
  ]

  abbrev pub call_once : {A : Type 0} → (Body → Result A) → String → Json → Result A
  call_once read url payload =
      request_of service.session (of_answer read (service.post 0 url payload)) 0

  unfoldable pub sign_ocsp : String → String → Result Json
  unfolding get_result
  sign_ocsp cert status =
      call_once get_result (String.◌++◌ base_url "/api/v1/cfssl/ocspsign")
        (object (field "certificate" (str cert) (field "status" (str status) end)))

  -- `if not resp_payload["success"]`
  abbrev pub check_success : Option Json → Result (Unit {0})
  check_success none = err key_error
  check_success (some v) = if truthy v then ok tt else err cert_error

  abbrev pub read_success : Body → Result (Unit {0})
  read_success (json (object fields)) = check_success (lookup "success" (of_fields fields))
  read_success (json _) = err type_error
  read_success _ = err cert_error

  unfoldable pub post_ocsprest : String → Json → Result (Unit {0})
  unfolding lookup of_fields truthy
  post_ocsprest url send_payload = call_once read_success url send_payload

  abbrev pub dump_crlfiles : Result (Unit {0})
  dump_crlfiles = post_ocsprest (String.◌++◌ ocsprest_base "/api/v1/dump_crl") null

  abbrev pub refresh_ocsp : Result (Unit {0})
  refresh_ocsp = post_ocsprest (String.◌++◌ ocsprest_base "/api/v1/refresh") null

  -- Without the certificate of the service.
  unfoldable pub get_ca : Result String
  unfolding get_result_cert
  get_ca =
      of_answer get_result_cert
        (service.post 0 (String.◌++◌ base_url "/api/v1/cfssl/info") (object end))

  abbrev pub bundle_answer : String → Result String
  bundle_answer cert = of_answer get_result_bundle (
      service.post 0 (String.◌++◌ base_url "/api/v1/cfssl/bundle")
        (object (field "certificate" (str cert) (field "flavor" (str "optimal") end))))

  unfoldable pub get_bundle : String → Result String
  unfolding post_ocsprest get_result_bundle
  get_bundle cert = elim refresh_ocsp [ err e ↦ err e | ok _ ↦ bundle_answer cert ]

  unfoldable pub anon_sign_csr : String → Bool → Result String
  unfolding get_result_cert
  anon_sign_csr csr bundle =
      of_answer get_result_cert
        (service.post 0 (String.◌++◌ ocsprest_base "/api/v1/csr/sign") (sign_payload csr bundle))
