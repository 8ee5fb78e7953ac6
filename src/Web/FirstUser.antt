-- ===== src/Web/FirstUser.antt =====
-- src/rasenmaeher_api/web/api/firstuser/views.py: the first administrator. The waiting for background
-- tasks is left out: it changes nothing of the database.
pub mod Laws
use python_rasenmaeher_api.Base.{
  ℕ, zero, suc, ◌+◌, ◌-◌, ◌≤◌, ◌<◌, String, ◌≡◌, refl, sym, ap, ◌∙◌, ◌≢◌, ◌↔◌, ◌⊎◌, inl, inr, Bool,
  true, false, not, ◌&&◌, ◌||◌, Option, none, some, List, [], ◌∷◌, ◌++◌, map, arith, ◌==◌, eq_iff,
  eq_refl, eqb, ltb, if◌then◌else◌, eqb_refl, Bool-cases, Option-cases, is_some, All, find_first,
  where_rows, update_rows, any,
}
use python_rasenmaeher_api.Exec.{
  Error, not_found, deleted, callsign_reserved, pool_inactive, forbidden_operation, token_reuse,
  backend_error, integrity_error, runtime_error, value_error, key_error, unbound_local_error,
  attribute_error, file_exists_error, http, Result, ok, err, is_err, is_not_found, is_value_error,
  is_http_exception, status_code, Exec, pure, raise, gets, or_raise, on_error, except_for, ◌>>=◌,
  ◌>>◌, modify, raise_if,
}
use python_rasenmaeher_api.Json.{Dict, Json, str, get_flag}
use python_rasenmaeher_api.Db.{
  Person, Enrollment, LoginCode, Action, World, audit, success, failure,
}
use python_rasenmaeher_api.Db.People
use python_rasenmaeher_api.Db.People.{is_callsign_available}
use python_rasenmaeher_api.Db.People.Creation.{create_with_cert}
use python_rasenmaeher_api.Db.People.Roles.{assign_role}
use python_rasenmaeher_api.Db.Enrollments.{create_for_callsign, approve}
use python_rasenmaeher_api.Db.LoginCodes.{by_code, create_for_claims}
use python_rasenmaeher_api.Web.{refuse}

unfoldable pub check_unused : LoginCode → Action Bool
check_unused row = elim row.used_on [
  | some on ↦ refuse "firstuser_code_check" none "CODE_ALREADY_USED" (http 403)
  | none ↦ do audit "firstuser_code_check" success none none; pure true
]

-- `except NotFound` covers the search alone.
unfoldable pub get_check_code : String → Action Bool
get_check_code code = do
  res ← except_for is_not_found (do row ← by_code code; pure (some row)) (pure none)
  elim res [ none ↦ pure false | some row ↦ check_unused row ]

module _ (w : World) where
  unfoldable pub create_anon_admin : Action (Unit {0})
  create_anon_admin = do
    anon_user ← create_with_cert w "anon_admin" (some []) none
    assign_role w anon_user "anon_admin"
    audit "firstuser_bootstrap" success none none

  unfoldable pub bootstrap : Action (Unit {0})
  bootstrap = do
    added ← is_callsign_available w "anon_admin"
    elim added [ true ↦ pure tt | false ↦ create_anon_admin ]

  unfoldable pub make_admin : String → Person → Action String
  make_admin callsign person = do
    added ← assign_role w person "admin"
    elim added [
      | false ↦ refuse "firstuser_admin_create" (some callsign) "ALREADY_ADMIN" (http 400)
      | true ↦ do
        code ← create_for_claims w (("sub", str callsign) ∷ []) none
        audit "firstuser_admin_create" success (some callsign) none
        pure code
    ]

  unfoldable pub approve_admin : String → Enrollment → Action String
  approve_admin callsign enrollment = do
    approver ← People.by_callsign w "anon_admin" false
    new_admin ← approve w enrollment approver
    make_admin callsign new_admin

  unfoldable pub add_admin : String → Option String → Action String
  add_admin callsign csr = do
    bootstrap
    enrollment ← create_for_callsign w callsign none (some []) csr
    approve_admin callsign enrollment

  -- The code by which the new administrator logs in.
  unfoldable pub post_admin_add : Dict → String → Option String → Action String
  post_admin_add jwt callsign csr = elim (get_flag "anon_admin_session" jwt) [
    | false ↦ refuse "firstuser_admin_create" (some callsign) "MISSING_ANON_ADMIN_CLAIM" (http 403)
    | true ↦ add_admin callsign csr
  ]
