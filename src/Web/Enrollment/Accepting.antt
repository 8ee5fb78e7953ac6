-- ===== src/Web/Enrollment/Accepting.antt =====
-- What a request to accept an enrollment has done when it succeeds.
use mathlib.Core.Path.{subst}
use python_rasenmaeher_api.Base.{
  find_first-update_other, String, ◌≡◌, refl, sym, ap, ◌∙◌, inl, inr, true, Option, none, some,
  arith, ◌==◌, eqb_refl, find_first, update_rows,
}
use python_rasenmaeher_api.Exec.{>>=-eq-ok, Result-cases, ok, ◌>>=◌}
use python_rasenmaeher_api.Db.{Person, Enrollment, Store, World, audit, call, approved}
use python_rasenmaeher_api.Db.People.Creation.{create_with_cert}
use python_rasenmaeher_api.Db.People.Creation.Frame.{create_with_cert-Keeps}
use python_rasenmaeher_api.Db.Enrollments.{decide, enrollment_pk, enrollment_callsign, approve}
use python_rasenmaeher_api.Web.{refuse, found_or_404}
use python_rasenmaeher_api.Web.Auth.{
  Request, admin, MtlsOrJwtPayload, mtls_or_jwt, default_disallowed,
}
use python_rasenmaeher_api.Db.People.{same_callsign}
use python_rasenmaeher_api.Web.Enrollment.{
  decision, post_enrollment_accept, accept_checked, accept_pending,
}
use python_rasenmaeher_api.Web.Enrollment.Laws.{decision-ok, decider-ok}
use python_rasenmaeher_api.Web.Auth.Laws.{admin-ok, admin-payload}

module _ (w : World) where
  -- The decision that an enrollment bears.
  abbrev pub IsApproved : Enrollment → Person → Person → Enrollment → Type 0
  IsApproved before approver person after =
      (after.pk ≡ before.pk)
      × (after.state ≡ approved)
      × (after.decided_by ≡ some approver.pk)
      × (after.person ≡ some person.pk)

  approve-found :
      (callsign : String) (s t : Store) (e : Enrollment) (approver person : Person)
      → find_first (enrollment_callsign w callsign) s.enrollments ≡ some e
      → approve w e approver s ≡ (ok person, t)
      → (after : Enrollment) × (find_first (enrollment_callsign w callsign) t.enrollments
          ≡ some after)
        × ((create_with_cert w e.callsign e.extra e.csr s).0 ≡ ok person)
        × IsApproved e approver person after
  unfolding approve call
  approve-found callsign s t e approver person found h =
      elim (Result-cases (create_with_cert w e.callsign e.extra e.csr s).0) [
        | inl (p, made) ↦
            let u = (create_with_cert w e.callsign e.extra e.csr s).1 in
            let same =
              (create_with_cert-Keeps w s.enrollments e.callsign e.extra e.csr).at s refl in
            let g = decide approved approver.pk (w.utcnow u.calls) (some p.pk) in
            let written : t.enrollments ≡ update_rows (enrollment_pk e.pk) g u.enrollments =
              ground arith in
            let is_p : person ≡ p = ground arith in
            (
              g e,
              (ap (find_first (enrollment_callsign w callsign))
                    (written ∙ ap (update_rows (enrollment_pk e.pk) g) same)
                  ∙ find_first-update_other (enrollment_callsign w callsign) (enrollment_pk e.pk) g
                      s.enrollments e (λ x. refl) found (eqb_refl e.pk)),
              made ∙ ap (λ (q : Person). ok q) (sym is_p),
              (refl, refl, refl, ap (λ (q : Person). some q.pk) (sym is_p)),
            )
        | inr (x, failed) ↦ absurd (ground arith)
      ]

  accept_checked-ok :
      (callsign approvecode cs : String) (approver : Person) (e : Enrollment) (u t : Store)
      → accept_checked w callsign approvecode approver e u ≡ (ok cs, t)
      → ((approvecode == e.approvecode) ≡ true)
        × (person : Person) × (v : Store) × (approve w e approver u ≡ (ok person, v))
        × (t.enrollments ≡ v.enrollments)
        × (cs ≡ person.callsign)
  unfolding accept_checked accept_pending refuse audit
  accept_checked-ok callsign approvecode cs approver e u t h =
      elim (Result-cases (approve w e approver u).0) [
        | inl (person, done) ↦ (
          ground arith,
          person,
          (approve w e approver u).1,
          ground arith,
          ground arith,
          ground arith,
        )
        | inr (x, failed) ↦ absurd (ground arith)
      ]

  -- The caller's user id is the callsign of the approver, who is in the table and not deleted.
  abbrev pub IsCaller : Option String → Store → Person → Type 0
  IsCaller actor s approver =
      (userid : String) × (actor ≡ some userid)
      × (find_first (same_callsign w userid) s.persons ≡ some approver)
      × (approver.deleted ≡ none)

  abbrev pub IsAccepting : Option String → String → String → Store → Store → Type 0
  IsAccepting actor callsign approvecode s t =
      (before after : Enrollment) × (approver person : Person) × (find_first
          (enrollment_callsign w callsign) s.enrollments
        ≡ some before)
      × (before.deleted ≡ none)
      × ((approvecode == before.approvecode) ≡ true)
      × IsCaller actor s approver
      × ((create_with_cert w before.callsign before.extra before.csr s).0 ≡ ok person)
      × (find_first (enrollment_callsign w callsign) t.enrollments ≡ some after)
      × IsApproved before approver person after

  accepted_by :
      (callsign approvecode cs : String) (actor : Option String) (u t : Store)
      → (found_or_404 "enrollment_approve" (some callsign) "NOT_FOUND" (decision w actor callsign)
            >>= λ found. accept_checked w callsign approvecode found.0 found.1)
          u
        ≡ (ok cs, t)
      → IsAccepting actor callsign approvecode u t
  accepted_by callsign approvecode cs actor u t h =
      let ((approver, e), v, known, h1) =
        >>=-eq-ok (λ found. accept_checked w callsign approvecode found.0 found.1) t cs
          (found_or_404 "enrollment_approve" (some callsign) "NOT_FOUND"
            (decision w actor callsign))
          u h in
      let (same, found, live, active) =
        decision-ok w "enrollment_approve" actor callsign u v approver e known in
      let (userid, is_actor, is_decider) =
        decider-ok w "enrollment_approve" actor callsign u v approver e known in
      let (matches, person, x, done, rows, _) =
        accept_checked-ok callsign approvecode cs approver e v t h1 in
      let (after, there, made, decided) =
        approve-found callsign v x e approver person
          (ap (λ (r : Store). find_first (enrollment_callsign w callsign) r.enrollments) same
            ∙ found)
          done in
      (
        e,
        after,
        approver,
        person,
        found,
        live,
        matches,
        (userid, is_actor, is_decider, active),
        ap (λ (r : Store). (create_with_cert w e.callsign e.extra e.csr r).0) (sym same) ∙ made,
        ap (find_first (enrollment_callsign w callsign)) rows ∙ there,
        decided,
      )

  -- When a request to accept an enrollment succeeds, the code that was sent is the one of the live
  -- enrollment with the callsign, `create_with_cert` returned a person for it, and the enrollment is
  -- approved, with the new person as its person. The one who decided is the caller: the live person
  -- in the table whose callsign is the user id of the request's certificate or JWT.
  pub accepted :
      (request : Request) (callsign approvecode cs : String) (s t : Store)
      → post_enrollment_accept w request callsign approvecode s ≡ (ok cs, t)
      → (payload : MtlsOrJwtPayload) × (mtls_or_jwt default_disallowed true request s
          ≡ (ok (some payload), s))
        × IsAccepting payload.userid callsign approvecode s t
  unfolding post_enrollment_accept
  accepted request callsign approvecode cs s t h = elim (Result-cases (admin w request s).0) [
    | inr (x, failed) ↦ absurd (ground arith)
    | inl ((actor, who), passed) ↦
        let u = (admin w request s).1 in
        let same_u = admin-ok w request s u (actor, who) (ground arith) in
        let (payload, sent, is_actor) = admin-payload w request s actor who passed in
        let done = accepted_by callsign approvecode cs actor u t (ground arith) in
        (
          payload,
          sent,
          subst (λ a. IsAccepting a callsign approvecode s t) is_actor
              (subst (λ r. IsAccepting actor callsign approvecode r t) same_u done),
        )
  ]
