-- ===== src/Web/InviteCodes.antt =====
-- src/rasenmaeher_api/web/api/enrollment/views.py: the invite codes, which are pools of enrollments.
pub mod Laws
use python_rasenmaeher_api.Base.{
  ℕ, zero, suc, ◌+◌, ◌-◌, ◌≤◌, ◌<◌, String, ◌≡◌, refl, sym, ap, ◌∙◌, ◌≢◌, ◌↔◌, ◌⊎◌, inl, inr, Bool,
  true, false, not, ◌&&◌, ◌||◌, Option, none, some, List, [], ◌∷◌, ◌++◌, map, arith, ◌==◌, eq_iff,
  eq_refl, eqb, ltb, if◌then◌else◌, eqb_refl, Bool-cases, Option-cases, is_some, All, find_first,
  where_rows, update_rows, any,
}
use python_rasenmaeher_api.Exec.{
  Error, not_found, deleted, callsign_reserved, pool_inactive, forbidden_operation, token_reuse,
  backend_error, integrity_error, runtime_error, value_error, key_error, unbound_local_error,
  attribute_error, file_exists_error, http, Result, ok, err, is_err, is_not_found, is_value_error,
  is_http_exception, status_code, Exec, pure, raise, gets, or_raise, on_error, except_for, ◌>>=◌,
  ◌>>◌, modify, raise_if,
}
use python_rasenmaeher_api.Json.{Dict, Json, str}
use python_rasenmaeher_api.Db.{
  Person, Enrollment, EnrollmentPool, Action, World, audit, success, failure, call,
}
use python_rasenmaeher_api.Db.People
use python_rasenmaeher_api.Db.Enrollments
use python_rasenmaeher_api.Db.Pools
use python_rasenmaeher_api.Db.Pools.{by_invitecode, set_active, create_for_owner, create_enrollment}
use python_rasenmaeher_api.Web.{refuse, found_or_404}
use python_rasenmaeher_api.Web.Auth.{Request, admin, authenticated}
use python_rasenmaeher_api.Web.Enrollment.{EnrollmentInitOut, issue_enrollment_jwt}

-- `EnrollmentPoolListItem`
pub record EnrollmentPoolListItem : Type 0 where
  pub invitecode : String
  pub active : Bool
  pub owner_cs : String
  pub created : ℕ

-- The owner of a pool, also a deleted one; it is looked up once, which reads the same row.
unfoldable pub pool_items : List EnrollmentPool → Action (List EnrollmentPoolListItem)
pool_items [] = pure []
pool_items (pool ∷ pools) = do
  owner ← People.by_pk pool.owner true
  rest ← pool_items pools
  pure (
      record {
        invitecode = pool.invitecode;
        active = pool.active;
        owner_cs = owner.callsign;
        created = pool.created;
      }
      ∷ rest)

-- `request.state.person` is `None` for a product, which has no `pk`.
unfoldable pub person_or_error : Option Person → Action Person
person_or_error none = raise attribute_error
person_or_error (some person) = pure person

-- What follows `set_active`.
unfoldable pub report_active : String → String → Bool → Action Bool
report_active action error_code done = elim done [
  | true ↦ do audit action success none none; pure true
  | false ↦ refuse action none error_code (http 500)
]

unfoldable pub find_code : String → String → Action EnrollmentPool
find_code action code = found_or_404 action none "NOT_FOUND" (by_invitecode code false)

unfoldable pub get_invite_codes : String → Action Bool
get_invite_codes code =
    except_for is_not_found (do obj ← by_invitecode code false; pure obj.active) (pure false)

-- What the routes do once the caller is known.
unfoldable pub activate_code : String → Action Bool
activate_code code = do
  obj ← find_code "invitecode_activate" code
  activated ← set_active obj true
  report_active "invitecode_activate" "ACTIVATION_FAILED" activated.active

unfoldable pub deactivate_code : String → Action Bool
deactivate_code code = do
  obj ← find_code "invitecode_deactivate" code
  deactivated ← set_active obj false
  report_active "invitecode_deactivate" "DEACTIVATION_FAILED" (not deactivated.active)

unfoldable pub put_activate_invite_code : Request → String → Action Bool
put_activate_invite_code request code = do authenticated request; activate_code code

unfoldable pub put_deactivate_invite_code : Request → String → Action Bool
put_deactivate_invite_code request code = do authenticated request; deactivate_code code

abbrev pub refuse_enrollment : {A : Type 0} → String → String → Error → Action A
refuse_enrollment callsign error_code e =
    refuse "enrollment_invitecode" (some callsign) error_code e

unfoldable pub check_active : String → EnrollmentPool → Action (Unit {0})
check_active callsign pool = elim pool.active [
  | true ↦ pure tt
  | false ↦ refuse_enrollment callsign "INVITECODE_DISABLED" (http 400)
]

module _ (w : World) where
  -- The owner's key, if a callsign is given that is not empty.
  unfoldable pub pool_owner : Option String → Action (Option ℕ)
  pool_owner none = pure none
  pool_owner (some callsign) = do owner ← People.by_callsign w callsign false; pure (some owner.pk)

  unfoldable pub list_pools : Request → Option String → Action (List EnrollmentPoolListItem)
  list_pools request owner_cs = do
    admin w request
    owner ← pool_owner (People.text_or_none owner_cs)
    pools ← Pools.list owner false
    pool_items pools

  unfoldable pub create_invite_code : Person → Action String
  create_invite_code owner = do
    pool ← create_for_owner w owner none
    audit "invitecode_create" success none none
    pure pool.invitecode

  unfoldable pub post_invite_code : Request → Action String
  post_invite_code request = do
    (_, person) ← admin w request
    owner ← person_or_error person
    create_invite_code owner

  -- The body of the `try` block.
  unfoldable pub delete_code : String → Action Bool
  delete_code code = do
    obj ← by_invitecode code false
    Pools.delete w obj
    audit "invitecode_delete" success none none
    pure true

  unfoldable pub delete_invite_code : Request → String → Action Bool
  delete_invite_code request code = do
    authenticated request
    found_or_404 "invitecode_delete" none "NOT_FOUND" (delete_code code)

  -- `try: Enrollment.by_callsign; …; raise HTTPException(400)`, `except NotFound: pass`
  unfoldable pub check_taken : String → Action (Unit {0})
  check_taken callsign =
      except_for is_not_found
        (do
          Enrollments.by_callsign w callsign
          refuse_enrollment callsign "CALLSIGN_TAKEN" (http 400))
        (pure tt)

  -- The route is open to everyone.
  unfoldable pub post_enroll_invite_code :
      String → String → Option String → Action EnrollmentInitOut
  post_enroll_invite_code code callsign csr = do
    pool ←
        found_or_404 "enrollment_invitecode" (some callsign) "INVITECODE_NOT_FOUND"
          (by_invitecode code false)
    check_active callsign pool
    check_taken callsign
    enrollment ← create_enrollment w pool callsign csr
    jwt ← issue_enrollment_jwt w (("sub", str callsign) ∷ [])
    audit "enrollment_invitecode" success (some callsign) none
    pure
        (record { callsign = enrollment.callsign; jwt = jwt; approvecode = enrollment.approvecode })
