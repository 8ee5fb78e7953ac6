-- ===== src/Web/Tokens.antt =====
-- src/rasenmaeher_api/web/api/tokens/views.py: login codes and single-use tokens are exchanged for
-- session tokens. The dependency `JWTBearer(auto_error=True)` gives the argument `jwt`.
pub mod Laws
use python_rasenmaeher_api.Base.{
  ℕ, zero, suc, ◌+◌, ◌-◌, ◌≤◌, ◌<◌, String, ◌≡◌, refl, sym, ap, ◌∙◌, ◌≢◌, ◌↔◌, ◌⊎◌, inl, inr, Bool,
  true, false, not, ◌&&◌, ◌||◌, Option, none, some, List, [], ◌∷◌, ◌++◌, map, arith, ◌==◌, eq_iff,
  eq_refl, eqb, ltb, if◌then◌else◌, eqb_refl, Bool-cases, Option-cases, is_some, All, find_first,
  where_rows, update_rows, any,
}
use python_rasenmaeher_api.Exec.{
  db_error, Error, not_found, deleted, callsign_reserved, pool_inactive, forbidden_operation,
  token_reuse, backend_error, integrity_error, runtime_error, value_error, key_error,
  unbound_local_error, attribute_error, file_exists_error, http, Result, ok, err, is_err,
  is_not_found, is_value_error, is_http_exception, status_code, Exec, pure, raise, gets, or_raise,
  on_error, except_for, ◌>>=◌, ◌>>◌, modify, raise_if,
}
use python_rasenmaeher_api.Json.{Dict, Json, str, lookup, get_flag, without_keys}
use python_rasenmaeher_api.Db.{Action, World, audit, success, failure, call, outside}
use python_rasenmaeher_api.Db.Nonces.{use_token}
use python_rasenmaeher_api.Db.LoginCodes.{use_code, create_for_claims}
use python_rasenmaeher_api.Web.{refuse}
use python_rasenmaeher_api.Web.Auth.{text_of, jwt_sub}

-- `TOKEN_COPY_EXCLUDE_FIELDS`
abbrev pub token_copy_exclude_fields : List String
token_copy_exclude_fields = "iat" ∷ "exp" ∷ "iss" ∷ "aud" ∷ "nonce" ∷ []

-- `except HTTPException: LOGGER.audit(…); raise`
unfoldable pub audit_http : {A : Type 0} → String → String → Error → Action A
unfolding refuse is_http_exception
audit_http action error_code e = elim (is_http_exception e) [
  | true ↦ refuse action none error_code e
  | false ↦ raise e
]

module _ (w : World) where
  -- The text that is used up; the database refuses a value of another kind.
  unfoldable pub use_nonce : Json → Action (Unit {0})
  use_nonce (str nonce) =
      on_error (use_token w nonce none) (audit_http "jwt_exchange" "NONCE_REUSE")
  use_nonce _ = raise db_error

  unfoldable pub issue_session : Dict → Action String
  unfolding call audit
  issue_session payload = do
    jwt ← call (λ n. w.issue n (without_keys token_copy_exclude_fields payload))
    audit "jwt_exchange" success none none
    pure jwt

  unfoldable pub exchange_payload : Dict → Json → Action String
  exchange_payload payload nonce = do
    use_nonce nonce
    elim (get_flag "anon_admin_session" payload) [
      | true ↦ issue_session payload
      | false ↦ refuse "jwt_exchange" none "NOT_ANON_ADMIN_SESSION" (http 403)
    ]

  unfoldable pub check_payload : Dict → Action String
  check_payload [] = refuse "jwt_exchange" none "INVALID_TOKEN" (http 403)
  check_payload (entry ∷ entries) = elim (lookup "nonce" (entry ∷ entries)) [
    | none ↦ refuse "jwt_exchange" none "MISSING_NONCE" (http 403)
    | some nonce ↦ exchange_payload (entry ∷ entries) nonce
  ]

  unfoldable pub exchange_token : String → Action String
  unfolding outside
  exchange_token token = do payload ← outside (λ n. w.decode n token); check_payload payload

  unfoldable pub refresh_token : Dict → Action String
  refresh_token jwt = call (λ n. w.issue n (without_keys token_copy_exclude_fields jwt))

  unfoldable pub create_code : Dict → Dict → Action String
  unfolding refuse audit
  create_code jwt claims = elim (get_flag "anon_admin_session" jwt) [
    | false ↦ refuse "logincode_generate" none "MISSING_ANON_ADMIN_CLAIM" (http 403)
    | true ↦ do
      code ← create_for_claims w claims none
      audit "logincode_generate" success (jwt_sub claims) none
      pure code
  ]

  unfoldable pub exchange_given : String → Action String
  unfolding outside audit
  exchange_given code = do
    jwt ← on_error (use_code w code none) (audit_http "logincode_exchange" "INVALID_CODE")
    payload ← outside (λ n. w.decode n jwt)
    audit "logincode_exchange" success (jwt_sub payload) none
    pure jwt

  unfoldable pub exchange_code : String → Action String
  unfolding refuse
  exchange_code code = elim (code == "") [
    | true ↦ refuse "logincode_exchange" none "NO_CODE_PROVIDED" (http 403)
    | false ↦ exchange_given code
  ]
