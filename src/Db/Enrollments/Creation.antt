-- ===== src/Db/Enrollments/Creation.antt =====
-- What `create_for_callsign` has done when it returns.
use python_rasenmaeher_api.Base.{
  ℕ, String, ◌≡◌, refl, sym, ap, ◌∙◌, ◌⊎◌, inl, inr, true, Option, none, some, List, [], ◌∷◌, ◌++◌,
  arith, eq_iff, Option-cases, find_first,
}
use python_rasenmaeher_api.Exec.{>>=-eq-ok, Result, ok, is_err, is_not_found, ◌>>=◌}
use python_rasenmaeher_api.Json.{Dict}
use python_rasenmaeher_api.Db.{Store, World, Enrollment, pending, call, checked}
use python_rasenmaeher_api.Db.Codes.{generate_code, generate_unused_code}
use python_rasenmaeher_api.Db.People.Creation.{check_csr}
use python_rasenmaeher_api.Db.Enrollments.{
  by_approvecode, by_callsign, enrollment_callsign, enroll, insert_enrollment, create_for_callsign,
  check_enrollment_free, check_product_names,
}
use python_rasenmaeher_api.Db.Enrollments.Table.{IsTable, unused-Keeps, found_deleted}

module _ (w : World) (callsign : String) (pool : Option ℕ) (extra : Option Dict)
    (csr : Option String) where
  taken-err :
      (s : Store) (row : Enrollment)
      → row.deleted ≡ none
      → find_first (enrollment_callsign w callsign) s.enrollments ≡ some row
      → is_err (create_for_callsign w callsign pool extra csr s).0 ≡ true
  unfolding create_for_callsign check_enrollment_free check_product_names check_csr by_callsign
      is_not_found checked
  taken-err s row live found = ground arith

  new-step :
      (s : Store)
      → find_first (enrollment_callsign w callsign) s.enrollments ≡ none
      → (is_err (create_for_callsign w callsign pool extra csr s).0 ≡ true)
        ⊎ (create_for_callsign w callsign pool extra csr s
            ≡ (generate_unused_code by_approvecode (generate_code w)
                  >>= enroll w callsign pool extra csr)
                s)
  unfolding create_for_callsign check_enrollment_free check_product_names check_csr by_callsign
      is_not_found checked
  new-step s new = ground arith

  -- A live row with the callsign that was asked for, pending, without a decision.
  abbrev pub IsPending : Enrollment → Type 0
  IsPending e =
      (e.callsign ≡ callsign)
      × (e.state ≡ pending)
      × (e.decided_by ≡ none)
      × (e.person ≡ none)
      × (e.pool ≡ pool)
      × (e.deleted ≡ none)

  enroll-ok :
      (code : String) (u t : Store) (e : Enrollment)
      → enroll w callsign pool extra csr code u ≡ (ok e, t)
      → IsPending e × (t.enrollments ≡ u.enrollments ++ e ∷ [])
  unfolding enroll insert_enrollment call
  enroll-ok code u t e h = (
    (ground arith, ground arith, ground arith, ground arith, ground arith, ground arith),
    ground arith,
  )

  found_last :
      (e : Enrollment) (rows : List Enrollment)
      → e.callsign ≡ callsign
      → find_first (enrollment_callsign w callsign) rows ≡ none
      → find_first (enrollment_callsign w callsign) (rows ++ e ∷ []) ≡ some e
  unfolding find_first
  found_last e [] is h = ground (arith, eq_iff (w.lower e.callsign) (w.lower callsign))
  found_last e (r ∷ rs) is h = ground (arith, found_last e rs)

  generated :
      (s t : Store) (e : Enrollment)
      → (generate_unused_code by_approvecode (generate_code w) >>= enroll w callsign pool extra csr)
          s
        ≡ (ok e, t)
      → IsPending e × (t.enrollments ≡ s.enrollments ++ e ∷ [])
  generated s t e h =
      let (code, u, drew, h1) =
        >>=-eq-ok (enroll w callsign pool extra csr) t e
          (generate_unused_code by_approvecode (generate_code w)) s h in
      let (is, rows) = enroll-ok code u t e h1 in
      let same = (unused-Keeps w s.enrollments).at s refl in
      let is_u = ap (λ (d : Result String × Store). d.1.enrollments) drew in
      (is, rows ∙ ap (λ rs. rs ++ e ∷ []) (sym is_u ∙ same))

  by_callsign-last :
      (e : Enrollment) (t : Store)
      → find_first (enrollment_callsign w callsign) t.enrollments ≡ some e
      → e.deleted ≡ none
      → by_callsign w callsign t ≡ (ok e, t)
  unfolding by_callsign checked
  by_callsign-last e t found live = ground arith

  -- When an enrollment was created on a well-formed table, nobody had the callsign in any case of
  -- its letters; the table has one more row, the enrollment that was returned, which is pending
  -- and undecided; and it is what the callsign finds.
  pub by_callsign-create_for_callsign :
      (s t : Store) (e : Enrollment)
      → IsTable w s.enrollments
      → create_for_callsign w callsign pool extra csr s ≡ (ok e, t)
      → (find_first (enrollment_callsign w callsign) s.enrollments ≡ none)
        × (t.enrollments ≡ s.enrollments ++ e ∷ [])
        × (by_callsign w callsign t ≡ (ok e, t))
        × IsPending e
  by_callsign-create_for_callsign s t e table h =
      elim (Option-cases (find_first (enrollment_callsign w callsign) s.enrollments)) [
        | inr (row, found) ↦
            let live =
              found_deleted w callsign pool extra csr s.enrollments row table.undeleted found in
            absurd (ground (arith, taken-err s row live found))
        | inl new ↦ elim (new-step s new) [
          | inl failed ↦ absurd (ground arith)
          | inr step ↦
              let (is, rows) = generated s t e (sym step ∙ h) in
              let last =
                ap (find_first (enrollment_callsign w callsign)) rows
                ∙ found_last e s.enrollments is.0 new in
              (new, rows, by_callsign-last e t last is.5, is)
        ]
      ]
