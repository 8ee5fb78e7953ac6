-- ===== src/Web/Guard.antt =====
-- The routes for administrators of src/rasenmaeher_api/web/api: a caller who is refused changes
-- nothing.
use python_rasenmaeher_api.Base.{String, ◌≡◌, Option, arith}
use python_rasenmaeher_api.Exec.{Error, err}
use python_rasenmaeher_api.Db.{Store, World}
use python_rasenmaeher_api.Web.Auth.{Request, admin}
use python_rasenmaeher_api.Web.Auth.Laws.{admin-err}
use python_rasenmaeher_api.Web.Enrollment.{
  request_enrollment_init, request_enrollment_promote, request_enrollment_demote,
  request_enrollment_lock, post_enrollment_accept,
}
use python_rasenmaeher_api.Web.InviteCodes.{post_invite_code}
use python_rasenmaeher_api.Web.People.{delete_person}

module _ (w : World) where
  -- When the dependencies of the routes for administrators refuse a request, each of the routes
  -- that starts, approves, rejects, promotes, demotes, invites or revokes answers with the same
  -- exception and changes nothing, not even the audit log.
  pub refused :
      (request : Request) (s t : Store) (e : Error) (callsign code : String) (csr : Option String)
      → admin w request s ≡ (err e, t)
      → (request_enrollment_init w request callsign csr s ≡ (err e, t))
        × (request_enrollment_promote w request callsign s ≡ (err e, t))
        × (request_enrollment_demote w request callsign s ≡ (err e, t))
        × (request_enrollment_lock w request callsign s ≡ (err e, t))
        × (post_enrollment_accept w request callsign code s ≡ (err e, t))
        × (post_invite_code w request s ≡ (err e, t))
        × (delete_person w request callsign s ≡ (err e, t))
        × (t ≡ s)
  unfolding request_enrollment_init request_enrollment_promote request_enrollment_demote
      request_enrollment_lock post_enrollment_accept post_invite_code delete_person
  refused request s t e callsign code csr h = (
    ground arith,
    ground arith,
    ground arith,
    ground arith,
    ground arith,
    ground arith,
    ground arith,
    admin-err w request s t e h,
  )
