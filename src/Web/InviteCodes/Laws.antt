-- ===== src/Web/InviteCodes/Laws.antt =====
-- An invite code after a request switched it, deleted it or created it.
use python_rasenmaeher_api.Base.{
  String, ◌≡◌, refl, inl, inr, Bool, true, false, Option, none, some, arith,
}
use python_rasenmaeher_api.Exec.{Result-cases, >>=-eq-ok, deleted, http, ok, err, is_not_found}
use python_rasenmaeher_api.Db.{EnrollmentPool, Person, Store, World, checked, audit}
use python_rasenmaeher_api.Db.Pools
use python_rasenmaeher_api.Db.Pools.{by_invitecode, set_active, create_for_owner}
use python_rasenmaeher_api.Db.Pools.Laws.{
  by_invitecode-ok, by_invitecode-set_active, by_invitecode-delete, by_invitecode-create_for_owner,
}
use python_rasenmaeher_api.Web.{found_or_404, refuse}
use python_rasenmaeher_api.Web.Auth.{Request, authenticated, admin}
use python_rasenmaeher_api.Web.InviteCodes.{
  create_invite_code, person_or_error, delete_code, activate_code, deactivate_code,
  put_activate_invite_code, put_deactivate_invite_code, delete_invite_code, get_invite_codes,
  post_enroll_invite_code, check_active, report_active, find_code, post_invite_code,
}

find_code-ok :
    (action code : String) (s t : Store) (pool : EnrollmentPool)
    → find_code action code s ≡ (ok pool, t)
    → (t ≡ s) × (by_invitecode code false s ≡ (ok pool, s))
unfolding find_code found_or_404 refuse by_invitecode checked
find_code-ok action code s t pool h = (ground arith, ground arith)

-- The public routes see the code as active, inactive or unknown.
active_code :
    (code : String) (t : Store) (pool : EnrollmentPool)
    → by_invitecode code false t ≡ (ok pool, t)
    → get_invite_codes code t ≡ (ok pool.active, t)
unfolding get_invite_codes
active_code code t pool h = ground arith

-- What `set_active` and the audit record leave.
report_active-by_invitecode :
    (action error_code code : String) (s t : Store) (pool : EnrollmentPool) (state b : Bool)
    → by_invitecode code false s ≡ (ok pool, s)
    → report_active action error_code b (set_active pool state s).1 ≡ (ok true, t)
    → by_invitecode code false t ≡ (ok (record pool { active = state }), t)
unfolding report_active refuse audit by_invitecode checked
report_active-by_invitecode action error_code code s t pool state b found h =
    ground (arith, by_invitecode-set_active code s pool state found)

deactivate_code-ok :
    (code : String) (s t : Store)
    → deactivate_code code s ≡ (ok true, t)
    → (pool : EnrollmentPool) × (by_invitecode code false t ≡ (ok pool, t)) × (pool.active ≡ false)
unfolding deactivate_code set_active
deactivate_code-ok code s t h = elim (Result-cases (find_code "invitecode_deactivate" code s).0) [
  | inl (pool, known) ↦
      let (same, found) =
        find_code-ok "invitecode_deactivate" code s (find_code "invitecode_deactivate" code s).1
          pool (ground arith) in
      (
        record pool { active = false },
        report_active-by_invitecode "invitecode_deactivate" "DEACTIVATION_FAILED" code s t pool
            false true found (ground arith),
        refl,
      )
  | inr (e, failed) ↦ absurd (ground arith)
]

activate_code-ok :
    (code : String) (s t : Store)
    → activate_code code s ≡ (ok true, t)
    → (pool : EnrollmentPool) × (by_invitecode code false t ≡ (ok pool, t)) × (pool.active ≡ true)
unfolding activate_code set_active
activate_code-ok code s t h = elim (Result-cases (find_code "invitecode_activate" code s).0) [
  | inl (pool, known) ↦
      let (same, found) =
        find_code-ok "invitecode_activate" code s (find_code "invitecode_activate" code s).1 pool
          (ground arith) in
      (
        record pool { active = true },
        report_active-by_invitecode "invitecode_activate" "ACTIVATION_FAILED" code s t pool true
            true found (ground arith),
        refl,
      )
  | inr (e, failed) ↦ absurd (ground arith)
]

module _ (w : World) where
  inactive_code :
      (code callsign : String) (csr : Option String) (t : Store) (pool : EnrollmentPool)
      → by_invitecode code false t ≡ (ok pool, t)
      → pool.active ≡ false
      → ((post_enroll_invite_code w code callsign csr t).0 ≡ err (http 400))
        × ((post_enroll_invite_code w code callsign csr t).1.enrollments ≡ t.enrollments)
  unfolding post_enroll_invite_code found_or_404 check_active refuse audit
  inactive_code code callsign csr t pool found inactive = (ground arith, ground arith)

  -- Once a request to deactivate an invite code has succeeded, the code is reported as not usable,
  -- and nobody can enroll with it: the request is answered with status 400 and adds no enrollment.
  pub deactivated_code :
      (request : Request) (code callsign : String) (csr : Option String) (s t : Store)
      → put_deactivate_invite_code request code s ≡ (ok true, t)
      → (get_invite_codes code t ≡ (ok false, t))
        × ((post_enroll_invite_code w code callsign csr t).0 ≡ err (http 400))
        × ((post_enroll_invite_code w code callsign csr t).1.enrollments ≡ t.enrollments)
  unfolding put_deactivate_invite_code
  deactivated_code request code callsign csr s t h =
      let (_, u, _, h') =
        >>=-eq-ok (λ _. deactivate_code code) t true (authenticated request) s h in
      let (pool, found, inactive) = deactivate_code-ok code u t h' in
      let (refused, kept) = inactive_code code callsign csr t pool found inactive in
      (ground (arith, active_code code t pool found), refused, kept)

  -- Once a request to activate an invite code has succeeded, the code is reported as usable.
  pub activated_code :
      (request : Request) (code : String) (s t : Store)
      → put_activate_invite_code request code s ≡ (ok true, t)
      → get_invite_codes code t ≡ (ok true, t)
  unfolding put_activate_invite_code
  activated_code request code s t h =
      let (_, u, _, h') = >>=-eq-ok (λ _. activate_code code) t true (authenticated request) s h in
      let (pool, found, active) = activate_code-ok code u t h' in
      ground (arith, active_code code t pool found)

  after_delete :
      (code : String) (s t : Store) (pool : EnrollmentPool)
      → by_invitecode code false (Pools.delete w pool s).1
        ≡ (err deleted, (Pools.delete w pool s).1)
      → t.pools ≡ (Pools.delete w pool s).1.pools
      → by_invitecode code false t ≡ (err deleted, t)
  unfolding by_invitecode checked
  after_delete code s t pool gone same = ground arith

  delete_code-ok :
      (code : String) (s t : Store)
      → found_or_404 "invitecode_delete" none "NOT_FOUND" (delete_code w code) s ≡ (ok true, t)
      → by_invitecode code false t ≡ (err deleted, t)
  unfolding found_or_404 refuse delete_code audit
  delete_code-ok code s t h = elim (Result-cases (by_invitecode code false s).0) [
    | inl (pool, known) ↦
        let (same, _, _) =
          by_invitecode-ok code s (by_invitecode code false s).1 pool (ground arith) in
        let gone = by_invitecode-delete w code s pool (ground arith) in
        after_delete code s t pool gone (ground arith)
    | inr (e, failed) ↦ absurd (ground arith)
  ]

  deleted_code_refused :
      (code callsign : String) (csr : Option String) (t : Store)
      → by_invitecode code false t ≡ (err deleted, t)
      → (get_invite_codes code t ≡ (ok false, t))
        × ((post_enroll_invite_code w code callsign csr t).0 ≡ err (http 404))
        × ((post_enroll_invite_code w code callsign csr t).1.enrollments ≡ t.enrollments)
  unfolding get_invite_codes post_enroll_invite_code found_or_404 refuse audit is_not_found
  deleted_code_refused code callsign csr t gone = (ground arith, ground arith, ground arith)

  -- Once a request to delete an invite code has succeeded, the code is reported as not usable, and
  -- enrolling with it is answered with status 404 and adds no enrollment.
  pub deleted_code :
      (request : Request) (code callsign : String) (csr : Option String) (s t : Store)
      → delete_invite_code w request code s ≡ (ok true, t)
      → (get_invite_codes code t ≡ (ok false, t))
        × ((post_enroll_invite_code w code callsign csr t).0 ≡ err (http 404))
        × ((post_enroll_invite_code w code callsign csr t).1.enrollments ≡ t.enrollments)
  unfolding delete_invite_code
  deleted_code request code callsign csr s t h =
      let (_, u, _, h') =
        >>=-eq-ok (λ _. found_or_404 "invitecode_delete" none "NOT_FOUND" (delete_code w code)) t
          true (authenticated request) s h in
      deleted_code_refused code callsign csr t (delete_code-ok code u t h')

  created_code-ok :
      (owner : Person) (s t : Store) (code : String)
      → create_invite_code w owner s ≡ (ok code, t)
      → get_invite_codes code t ≡ (ok true, t)
  unfolding create_invite_code audit get_invite_codes by_invitecode checked
  created_code-ok owner s t code h = elim (Result-cases (create_for_owner w owner none s).0) [
    | inl (pool, made) ↦
        let (found, active, _) =
          by_invitecode-create_for_owner w owner none s (create_for_owner w owner none s).1 pool
            (ground arith) in
        ground arith
    | inr (e, failed) ↦ absurd (ground arith)
  ]

  -- The code that a request for an invite code gets is reported as usable.
  pub created_code :
      (request : Request) (s t : Store) (code : String)
      → post_invite_code w request s ≡ (ok code, t)
      → get_invite_codes code t ≡ (ok true, t)
  unfolding post_invite_code person_or_error
  created_code request s t code h = elim (Result-cases (admin w request s).0) [
    | inl ((userid, some owner), who) ↦
        created_code-ok owner (admin w request s).1 t code (ground arith)
    | inl ((userid, none), who) ↦ absurd (ground arith)
    | inr (e, failed) ↦ absurd (ground arith)
  ]
