-- ===== src/Web/Enrollment.antt =====
-- src/rasenmaeher_api/web/api/enrollment/views.py: enrollments are started, approved and rejected, and
-- people are promoted and demoted. The invite codes of that file are in the module InviteCodes.
-- A response that says whether an operation succeeded is a truth value.
pub mod Accepting
pub mod Laws
pub mod Roles
use python_rasenmaeher_api.Base.{
  ℕ, zero, suc, ◌+◌, ◌-◌, ◌≤◌, ◌<◌, String, ◌≡◌, refl, sym, ap, ◌∙◌, ◌≢◌, ◌↔◌, ◌⊎◌, inl, inr, Bool,
  true, false, not, ◌&&◌, ◌||◌, Option, none, some, List, [], ◌∷◌, ◌++◌, map, arith, ◌==◌, eq_iff,
  eq_refl, eqb, ltb, if◌then◌else◌, eqb_refl, Bool-cases, Option-cases, is_some, All, find_first,
  where_rows, update_rows, any,
}
use python_rasenmaeher_api.Exec.{
  Error, not_found, deleted, callsign_reserved, pool_inactive, forbidden_operation, token_reuse,
  backend_error, integrity_error, runtime_error, value_error, key_error, unbound_local_error,
  attribute_error, file_exists_error, http, Result, ok, err, is_err, is_not_found, is_value_error,
  is_http_exception, status_code, Exec, pure, raise, gets, or_raise, on_error, except_for, ◌>>=◌,
  ◌>>◌, modify, raise_if,
}
use python_rasenmaeher_api.Json.{Dict, Json, str}
use python_rasenmaeher_api.Db.{
  Person, Enrollment, EnrollmentState, EnrollmentPool, Action, World, audit, success, failure, call,
}
use python_rasenmaeher_api.Db.People
use python_rasenmaeher_api.Db.People.Roles.{assign_role, remove_role}
use python_rasenmaeher_api.Db.Enrollments
use python_rasenmaeher_api.Db.Enrollments.{
  approve, reject, reset_approvecode4callsign, create_for_callsign, by_approvecode,
}
use python_rasenmaeher_api.Web.{refuse, found_or_404}
use python_rasenmaeher_api.Web.Auth.{Request, admin, authenticated}

-- `EnrollmentInitOut`
pub record EnrollmentInitOut : Type 0 where
  pub callsign : String
  pub jwt : String
  pub approvecode : String

pub record EnrollmentListItem : Type 0 where
  pub callsign : String
  pub approvecode : String
  pub state : EnrollmentState

-- Without a user id nobody is found.
unfoldable pub given_userid : Option String → Action String
given_userid none = raise not_found
given_userid (some userid) = pure userid

abbrev pub list_item : String → Enrollment → EnrollmentListItem
list_item code e = record { callsign = e.callsign; approvecode = code; state = e.state }

unfoldable pub list_items : List Enrollment → List EnrollmentListItem
list_items [] = []
list_items (e ∷ es) = list_item "" e ∷ list_items es

-- What follows the change of a role.
unfoldable pub report : String → String → String → Bool → Action Bool
report action target error_code done = elim done [
  | true ↦ do audit action success (some target) none; pure true
  | false ↦ refuse action (some target) error_code (http 400)
]

module _ (w : World) where
  unfoldable pub post_generate_verification_code : Request → Action String
  post_generate_verification_code request = do
    userid ← authenticated request
    callsign ← given_userid userid
    code ← reset_approvecode4callsign w callsign
    audit "verification_code_generate" success (some callsign) none
    pure code

  -- The callsign and the state of the enrollment with the code.
  unfoldable pub request_show_verification_code :
      Request → String → Action (String × EnrollmentState)
  request_show_verification_code request code = do
    admin w request
    raise_if (code == "na" || code == "") (http 400)
    obj ← by_approvecode code
    pure (obj.callsign, obj.state)

  unfoldable pub request_have_i_been_accepted : Request → Action Bool
  request_have_i_been_accepted request = do
    userid ← authenticated request
    callsign ← given_userid userid
    enrollment ← Enrollments.by_callsign w callsign
    pure (is_some enrollment.decided_by)

  -- `none` is the status -1.
  unfoldable pub request_enrolment_status :
      Request → String → Action (String × Option EnrollmentState)
  request_enrolment_status request callsign = do
    authenticated request
    except_for is_not_found
        (do obj ← Enrollments.by_callsign w callsign; pure (obj.callsign, some obj.state))
        (pure ("", none))

  unfoldable pub request_enrollment_list :
      Request → Option String → Action (List EnrollmentListItem)
  request_enrollment_list request code = do
    admin w request
    elim (People.text_or_none code) [
      | some c ↦
          except_for is_not_found
            (do enrollment ← by_approvecode c; pure (list_item c enrollment ∷ [])) (pure [])
      | none ↦ do rows ← Enrollments.list none; pure (list_items rows)
    ]

  -- The token is set as a cookie too.
  unfoldable pub issue_enrollment_jwt : Dict → Action String
  issue_enrollment_jwt claims = call (λ n. w.issue n claims)

  unfoldable pub request_enrollment_init :
      Request → String → Option String → Action EnrollmentInitOut
  request_enrollment_init request callsign csr = do
    admin w request
    enrollment ← create_for_callsign w callsign none (some []) csr
    jwt ← issue_enrollment_jwt (("sub", str callsign) ∷ [])
    audit "enrollment_init" success (some callsign) none
    pure
        (record { callsign = enrollment.callsign; jwt = jwt; approvecode = enrollment.approvecode })

  unfoldable pub request_enrollment_promote : Request → String → Action Bool
  request_enrollment_promote request callsign = do
    admin w request
    obj ←
        found_or_404 "user_promote" (some callsign) "USER_NOT_FOUND"
          (People.by_callsign w callsign false)
    role_added ← assign_role w obj "admin"
    report "user_promote" callsign "ALREADY_ADMIN" role_added

  unfoldable pub request_enrollment_demote : Request → String → Action Bool
  request_enrollment_demote request callsign = do
    admin w request
    obj ←
        found_or_404 "user_demote" (some callsign) "USER_NOT_FOUND"
          (People.by_callsign w callsign false)
    role_removed ← remove_role w obj "admin"
    report "user_demote" callsign "NOT_ADMIN" role_removed

  -- The administrator who decides, and the enrollment.
  unfoldable pub decision : Option String → String → Action (Person × Enrollment)
  decision actor callsign = do
    userid ← given_userid actor
    decider ← People.by_callsign w userid false
    enrollment ← Enrollments.by_callsign w callsign
    pure (decider, enrollment)

  unfoldable pub request_enrollment_lock : Request → String → Action Bool
  request_enrollment_lock request callsign = do
    (actor, _) ← admin w request
    (decider, enrollment) ←
        found_or_404 "enrollment_lock" (some callsign) "NOT_FOUND" (decision actor callsign)
    reject w enrollment decider
    audit "enrollment_lock" success (some callsign) none
    pure true

  -- The callsign of the new person.
  unfoldable pub accept_pending : String → Person → Enrollment → Action String
  accept_pending callsign approver enrollment = do
    person ← approve w enrollment approver
    audit "enrollment_approve" success (some callsign) none
    pure person.callsign

  unfoldable pub accept_checked : String → String → Person → Enrollment → Action String
  accept_checked callsign approvecode approver enrollment =
      elim (approvecode == enrollment.approvecode) [
        | false ↦ refuse "enrollment_approve" (some callsign) "INVALID_APPROVECODE" (http 403)
        | true ↦ accept_pending callsign approver enrollment
      ]

  unfoldable pub post_enrollment_accept : Request → String → String → Action String
  post_enrollment_accept request callsign approvecode = do
    (actor, _) ← admin w request
    (approver, enrollment) ←
        found_or_404 "enrollment_approve" (some callsign) "NOT_FOUND" (decision actor callsign)
    accept_checked callsign approvecode approver enrollment
