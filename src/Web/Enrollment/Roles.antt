-- ===== src/Web/Enrollment/Roles.antt =====
-- The routes that promote and demote people.
use mathlib.Core.Path.{subst}
use python_rasenmaeher_api.Base.{
  sym, ℕ, String, ◌≡◌, sym, inl, inr, Bool, true, false, not, ◌&&◌, ◌||◌, none, some, arith, ◌==◌,
  eqb, eqb_refl, find_first,
}
use python_rasenmaeher_api.Exec.{Result-cases, >>=-eq-ok, ok, ◌>>=◌}
use python_rasenmaeher_api.Db.{Person, Store, World, audit, checked}
use python_rasenmaeher_api.Db.People
use python_rasenmaeher_api.Db.People.{same_callsign}
use python_rasenmaeher_api.Db.People.Roles.{assign_role, remove_role}
use python_rasenmaeher_api.Db.People.Roles.Laws.{holds, IsTable, assign_role_lem, remove_role_lem}
use python_rasenmaeher_api.Web.{refuse, found_or_404}
use python_rasenmaeher_api.Web.Auth.{Request, admin}
use python_rasenmaeher_api.Web.Auth.Laws.{admin-ok}
use python_rasenmaeher_api.Web.Enrollment.{
  report, request_enrollment_promote, request_enrollment_demote,
}

granted :
    (pk : ℕ) (b : Bool) (s u v t : Store)
    → u ≡ s
    → b ≡ true
    → t.roles ≡ v.roles
    → b ≡ not (holds pk "admin" u)
    → holds pk "admin" v ≡ (holds pk "admin" u || ("admin" == "admin" && eqb pk pk))
    → (holds pk "admin" s ≡ false) × (holds pk "admin" t ≡ true)
granted pk b s u v t same done roles fresh has = (ground arith, ground (arith, eqb_refl pk))

withdrawn :
    (pk : ℕ) (b : Bool) (s u v t : Store)
    → u ≡ s
    → b ≡ true
    → t.roles ≡ v.roles
    → b ≡ holds pk "admin" u
    → holds pk "admin" v ≡ (holds pk "admin" u && not ("admin" == "admin" && eqb pk pk))
    → (holds pk "admin" s ≡ true) × (holds pk "admin" t ≡ false)
withdrawn pk b s u v t same done roles fresh has = (ground arith, ground (arith, eqb_refl pk))

module _ (w : World) where
  -- The live person with the callsign, and whether that person is an administrator before and
  -- after.
  abbrev pub IsSwitched : String → Store → Store → Bool → Type 0
  IsSwitched callsign s t after =
      (p : Person) × (find_first (same_callsign w callsign) s.persons ≡ some p)
      × (p.deleted ≡ none)
      × (holds p.pk "admin" s ≡ not after)
      × (holds p.pk "admin" t ≡ after)

  found_or_404-found :
      (action code callsign : String) (s u : Store) (p : Person)
      → found_or_404 action (some callsign) code (People.by_callsign w callsign false) s ≡ (ok p, u)
      → (u ≡ s) × (find_first (same_callsign w callsign) s.persons ≡ some p) × (p.deleted ≡ none)
  unfolding found_or_404 refuse People.by_callsign checked
  found_or_404-found action code callsign s u p h = (ground arith, ground arith, ground arith)

  reported :
      (action target code : String) (s t : Store) (b : Bool)
      → report action target code b s ≡ (ok true, t)
      → (b ≡ true) × (t.roles ≡ s.roles)
  unfolding report refuse audit
  reported action target code s t b h = (ground arith, ground arith)

  -- What follows the checks of the caller.
  promote_tail :
      (callsign : String) (s t : Store)
      → (found_or_404 "user_promote"
              (some callsign)
              "USER_NOT_FOUND"
              (People.by_callsign w callsign false)
            >>= λ p. assign_role w p "admin" >>= report "user_promote" callsign "ALREADY_ADMIN")
          s
        ≡ (ok true, t)
      → IsSwitched callsign s t true
  promote_tail callsign s t h =
      let (p, u, found, h1) =
        >>=-eq-ok (λ p. assign_role w p "admin" >>= report "user_promote" callsign "ALREADY_ADMIN")
          t true
          (found_or_404 "user_promote" (some callsign) "USER_NOT_FOUND"
            (People.by_callsign w callsign false))
          s h in
      let (same, first, live) =
        found_or_404-found "user_promote" "USER_NOT_FOUND" callsign s u p found in
      let (b, v, assigned, h2) =
        >>=-eq-ok (report "user_promote" callsign "ALREADY_ADMIN") t true (assign_role w p "admin")
          u h1 in
      let (done, roles) = reported "user_promote" callsign "ALREADY_ADMIN" v t b h2 in
      let (fresh, others) = assign_role_lem w p "admin" u v b assigned in
      let (was, is) = granted p.pk b s u v t same done roles fresh (others p.pk "admin") in
      (p, first, live, was, is)

  demote_tail :
      (callsign : String) (s t : Store)
      → (found_or_404 "user_demote"
              (some callsign)
              "USER_NOT_FOUND"
              (People.by_callsign w callsign false)
            >>= λ p. remove_role w p "admin" >>= report "user_demote" callsign "NOT_ADMIN")
          s
        ≡ (ok true, t)
      → IsTable s.roles
      → IsSwitched callsign s t false
  demote_tail callsign s t h table =
      let (p, u, found, h1) =
        >>=-eq-ok (λ p. remove_role w p "admin" >>= report "user_demote" callsign "NOT_ADMIN") t
          true
          (found_or_404 "user_demote" (some callsign) "USER_NOT_FOUND"
            (People.by_callsign w callsign false))
          s h in
      let (same, first, live) =
        found_or_404-found "user_demote" "USER_NOT_FOUND" callsign s u p found in
      let (b, v, assigned, h2) =
        >>=-eq-ok (report "user_demote" callsign "NOT_ADMIN") t true (remove_role w p "admin") u
          h1 in
      let (done, roles) = reported "user_demote" callsign "NOT_ADMIN" v t b h2 in
      let (fresh, others) =
        remove_role_lem w p "admin" u v b (subst (λ (r : Store). IsTable r.roles) (sym same) table)
          assigned in
      let (was, is) = withdrawn p.pk b s u v t same done roles fresh (others p.pk "admin") in
      (p, first, live, was, is)

  -- When a request to promote a callsign succeeds, it is that of a live person who was not an
  -- administrator and is one now.
  pub promoted :
      (request : Request) (callsign : String) (s t : Store)
      → request_enrollment_promote w request callsign s ≡ (ok true, t)
      → IsSwitched callsign s t true
  unfolding request_enrollment_promote
  promoted request callsign s t h = elim (Result-cases (admin w request s).0) [
    | inr (e, failed) ↦ absurd (ground arith)
    | inl (who, passed) ↦
        let same = admin-ok w request s (admin w request s).1 who (ground arith) in
        promote_tail callsign s t (ground arith)
  ]

  -- When a request to demote a callsign succeeds, on a table of roles without repetitions, it is
  -- that of a live person who was an administrator and is none now.
  pub demoted :
      (request : Request) (callsign : String) (s t : Store)
      → IsTable s.roles
      → request_enrollment_demote w request callsign s ≡ (ok true, t)
      → IsSwitched callsign s t false
  unfolding request_enrollment_demote
  demoted request callsign s t table h = elim (Result-cases (admin w request s).0) [
    | inr (e, failed) ↦ absurd (ground arith)
    | inl (who, passed) ↦
        let same = admin-ok w request s (admin w request s).1 who (ground arith) in
        demote_tail callsign s t (ground arith) table
  ]
