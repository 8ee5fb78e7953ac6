-- ===== src/Web/Enrollment/Laws.antt =====
-- Decisions on enrollments.
use python_rasenmaeher_api.Base.{
  find_first-update_other, String, ◌≡◌, refl, ap, ◌∙◌, inl, inr, true, Option, none, some, arith,
  eqb_refl, is_some, find_first,
}
use python_rasenmaeher_api.Exec.{Result-cases, ok}
use python_rasenmaeher_api.Db.{Person, Enrollment, Store, World, audit, checked, rejected}
use python_rasenmaeher_api.Db.People.{by_callsign, same_callsign}
use python_rasenmaeher_api.Db.People
use python_rasenmaeher_api.Db.Enrollments
use python_rasenmaeher_api.Db.Enrollments.{
  enrollment_pk, enrollment_callsign, reject, approve, update_enrollment,
}
use python_rasenmaeher_api.Web.{refuse, found_or_404}
use python_rasenmaeher_api.Web.Auth.{authenticated, Request, admin}
use python_rasenmaeher_api.Web.Enrollment.{
  decision, given_userid, request_enrollment_lock, request_have_i_been_accepted,
}

module _ (w : World) where
  -- The enrollment with the callsign is live and has passed a test.
  abbrev pub Enrolled : String → (Enrollment → Type 0) → Store → Type 0
  Enrolled callsign P s =
      (e : Enrollment) × (find_first (enrollment_callsign w callsign) s.enrollments ≡ some e)
      × (e.deleted ≡ none)
      × P e

  pub decision-ok :
      (action : String) (actor : Option String) (callsign : String) (s t : Store) (decider : Person)
      (e : Enrollment)
      → found_or_404 action (some callsign) "NOT_FOUND" (decision w actor callsign) s
        ≡ (ok (decider, e), t)
      → (t ≡ s)
        × (find_first (enrollment_callsign w callsign) s.enrollments ≡ some e)
        × (e.deleted ≡ none)
        × (decider.deleted ≡ none)
  unfolding found_or_404 refuse decision given_userid Enrollments.by_callsign checked
      People.by_callsign
  decision-ok action actor callsign s t decider e h =
      (ground arith, ground arith, ground arith, ground arith)

  -- The one who decides is the person with the caller's user id as callsign.
  pub decider-ok :
      (action : String) (actor : Option String) (callsign : String) (s t : Store) (decider : Person)
      (e : Enrollment)
      → found_or_404 action (some callsign) "NOT_FOUND" (decision w actor callsign) s
        ≡ (ok (decider, e), t)
      → (userid : String) × (actor ≡ some userid)
        × (find_first (same_callsign w userid) s.persons ≡ some decider)
  unfolding found_or_404 refuse decision given_userid Enrollments.by_callsign checked
      People.by_callsign
  decider-ok action none callsign s t decider e h = absurd (ground arith)
  decider-ok action (some userid) callsign s t decider e h = (userid, refl, ground arith)

  reject-found :
      (callsign : String) (s : Store) (decider : Person) (e : Enrollment)
      → find_first (enrollment_callsign w callsign) s.enrollments ≡ some e
      → (find_first (enrollment_callsign w callsign) (reject w e decider s).1.enrollments
          ≡ some (record e {
            state = rejected;
            decided_by = some decider.pk;
            decided_on = some (w.utcnow s.calls);
          }))
        × ((reject w e decider s).1.persons ≡ s.persons)
  unfolding reject
  reject-found callsign s decider e found = (
    find_first-update_other (enrollment_callsign w callsign) (enrollment_pk e.pk) _ s.enrollments e
        (λ x. refl) found (eqb_refl e.pk),
    refl,
  )

  -- The answer to the question whether the caller was accepted.
  asked :
      (request : Request) (callsign : String) (t : Store) (e : Enrollment)
      → authenticated request t ≡ (ok (some callsign), t)
      → find_first (enrollment_callsign w callsign) t.enrollments ≡ some e
      → e.deleted ≡ none
      → request_have_i_been_accepted w request t ≡ (ok (is_some e.decided_by), t)
  unfolding request_have_i_been_accepted given_userid Enrollments.by_callsign checked
  asked request callsign t e who found live = ground arith

  lock_found :
      (request : Request) (callsign : String) (s t : Store)
      → request_enrollment_lock w request callsign s ≡ (ok true, t)
      → (u : Store) × (e : Enrollment) × (decider : Person) × (find_first
            (enrollment_callsign w callsign)
            u.enrollments
          ≡ some e)
        × (e.deleted ≡ none)
        × (t.enrollments ≡ (reject w e decider u).1.enrollments)
        × (t.persons ≡ u.persons)
  unfolding request_enrollment_lock audit
  lock_found request callsign s t h = elim (Result-cases (admin w request s).0) [
    | inl ((actor, who), passed) ↦
        elim (Result-cases
          (found_or_404 "enrollment_lock" (some callsign) "NOT_FOUND" (decision w actor callsign)
            (admin w request s).1).0) [
              | inl ((decider, e), known) ↦
                  let u = (admin w request s).1 in
                  let (same, found, live, _) =
                    decision-ok "enrollment_lock" actor callsign u
                      (found_or_404 "enrollment_lock" (some callsign) "NOT_FOUND"
                        (decision w actor callsign) u).1
                      decider e (ground arith) in
                  let (_, persons) = reject-found callsign u decider e found in
                  (u, e, decider, found, live, ground arith, ground arith)
              | inr (x, failed) ↦ absurd (ground arith)
            ]
    | inr (x, failed) ↦ absurd (ground arith)
  ]

  -- After a request to lock an enrollment has succeeded, the live enrollment with the callsign is
  -- rejected, and yet `have-i-been-accepted` answers yes to its callsign: the handler asks
  -- whether somebody decided, not what.
  pub locked_is_accepted :
      (request request' : Request) (callsign : String) (s t : Store)
      → request_enrollment_lock w request callsign s ≡ (ok true, t)
      → authenticated request' t ≡ (ok (some callsign), t)
      → Enrolled callsign (λ e. e.state ≡ rejected) t
        × (request_have_i_been_accepted w request' t ≡ (ok true, t))
  locked_is_accepted request request' callsign s t h who =
      let (u, e, decider, found, live, rows, _) = lock_found request callsign s t h in
      let (row, _) = reject-found callsign u decider e found in
      let now = ap (find_first (enrollment_callsign w callsign)) rows ∙ row in
      ((_, now, live, refl), asked request' callsign t _ who now live)
