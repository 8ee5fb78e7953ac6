-- ===== src/Web.antt =====
-- The request handlers of src/rasenmaeher_api/web/api. A handler is an action of the database with the
-- audit log; its dependencies (the checks of who calls) are steps of it. A response is what the
-- handler returns; the text for people in it is left out.
pub mod Audit
pub mod Auth
pub mod Tokens
pub mod Enrollment
pub mod InviteCodes
pub mod FirstUser
pub mod People
pub mod Validity
pub mod Guard
pub mod Product
pub mod Health
pub mod Enduser
pub mod Instructions
pub mod Descriptions
use python_rasenmaeher_api.Base.{
  ℕ, zero, suc, ◌+◌, ◌-◌, ◌≤◌, ◌<◌, String, ◌≡◌, refl, sym, ap, ◌∙◌, ◌≢◌, ◌↔◌, ◌⊎◌, inl, inr, Bool,
  true, false, not, ◌&&◌, ◌||◌, Option, none, some, List, [], ◌∷◌, ◌++◌, map, arith, ◌==◌, eq_iff,
  eq_refl, eqb, ltb, if◌then◌else◌, eqb_refl, Bool-cases, Option-cases, is_some, All, find_first,
  where_rows, update_rows, any,
}
use python_rasenmaeher_api.Exec.{
  Error, not_found, deleted, callsign_reserved, pool_inactive, forbidden_operation, token_reuse,
  backend_error, integrity_error, runtime_error, value_error, key_error, unbound_local_error,
  attribute_error, file_exists_error, http, Result, ok, err, is_err, is_not_found, is_value_error,
  is_http_exception, status_code, Exec, pure, raise, gets, or_raise, on_error, except_for, ◌>>=◌,
  ◌>>◌, modify, raise_if,
}
use python_rasenmaeher_api.Db.{Action, audit, success, failure}

-- An audit record of a failure, and the exception.
unfoldable pub refuse : {A : Type 0} → String → Option String → String → Error → Action A
unfolding audit
refuse action target error_code e = do audit action failure target (some error_code); raise e

-- `except NotFound: LOGGER.audit(…); raise HTTPException(404)`
unfoldable pub found_or_404 : {A : Type 0} → String → Option String → String → Action A → Action A
unfolding refuse is_not_found
found_or_404 action target error_code m =
    except_for is_not_found m (refuse action target error_code (http 404))
