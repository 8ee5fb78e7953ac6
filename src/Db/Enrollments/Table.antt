-- ===== src/Db/Enrollments/Table.antt =====
-- The table of enrollments: a callsign is enrolled once, whatever its case, and no enrollment is
-- ever deleted.
use Prim.Native.Char.{Char}
use mathlib.Core.Path.{subst}
use python_rasenmaeher_api.Base.{
  refl, ◌⊎◌, ◌∷◌, inl, inr, ◌++◌, Bool-cases, sym, ap, any, All-append, [], Option-cases, some,
  find_first, Option, ℕ, zero, suc, String, ◌≡◌, none, List, map, arith, All,
}
use python_rasenmaeher_api.Exec.{◌>>=◌, is_not_found, err, ok, Result}
use python_rasenmaeher_api.Base.Keys.{All-of_find_first, Distinct-append, Distinct}
use python_rasenmaeher_api.Db.People.Creation.Frame.{Enrollments}
use python_rasenmaeher_api.Exec.Keeps.{Keeps-bind, Keeps, keeps_rules}
use python_rasenmaeher_api.Db.{Action, outside, call, Store, Enrollment, World}
use python_rasenmaeher_api.Db.Codes.{
  code_alphabet, char_at, prepend, generate_unused_code, generate_code, draw_code,
}
use python_rasenmaeher_api.Db.Enrollments.{
  enrollment_clashes, new_enrollment, check_enrollment_free, insert_enrollment, enroll,
  enrollment_callsign, create_for_callsign, check_product_names, by_approvecode,
}
use python_rasenmaeher_api.Db.Codes.Laws.{find_unused-Keeps}
use python_rasenmaeher_api.Json.{Dict}
use python_rasenmaeher_api.Db.People.Creation.{check_csr}
use python_rasenmaeher_api.Db.People.{by_callsign}

-- The column of callsigns, in lower case.
abbrev pub lower_callsigns : World → List Enrollment → List String
lower_callsigns w rows = map (λ (e : Enrollment). w.lower e.callsign) rows

pub record IsTable (w : World) (rows : List Enrollment) : Type 0 where
  pub undeleted : All (λ (e : Enrollment). e.deleted ≡ none) rows
  pub distinct : Distinct (lower_callsigns w rows)

map-add :
    {A B : Type 0} (f : A → B) (xs : List A) (x : A) → map f (xs ++ x ∷ []) ≡ map f xs ++ f x ∷ []
map-add f [] x = refl
map-add f (y ∷ ys) x = ap (λ zs. f y ∷ zs) (map-add f ys x)

IsTable-add :
    (w : World) (rows : List Enrollment) (row : Enrollment)
    → row.deleted ≡ none
    → find_first (enrollment_callsign w row.callsign) rows ≡ none
    → IsTable w rows
    → IsTable w (rows ++ row ∷ [])
IsTable-add w rows row live new table = record {
  undeleted = All-append (λ (e : Enrollment). e.deleted ≡ none) rows row table.undeleted live;
  distinct = rw (map-add (λ (e : Enrollment). w.lower e.callsign) rows row) (
      Distinct-append (lower_callsigns w rows) (w.lower row.callsign)
        (All-of_find_first (λ (e : Enrollment). w.lower e.callsign) (w.lower row.callsign) rows new)
        table.distinct);
}

module _ (w : World) (rows : List Enrollment) where
  call-Keeps : {A : Type 0} (f : ℕ → A) → Keeps (Enrollments rows) (call f)
  unfolding call
  call-Keeps f = record { at = λ s h. h }

  outside-Keeps : {A : Type 0} (f : ℕ → Result A) → Keeps (Enrollments rows) (outside f)
  unfolding outside
  outside-Keeps f = record { at = λ s h. h }

  prepend-Keeps :
      (c : Char) (draw : Action String)
      → Keeps (Enrollments rows) draw
      → Keeps (Enrollments rows) (prepend c draw)
  prepend-Keeps c draw k = search keeps_rules

  draw_code-Keeps : (n : ℕ) → Keeps (Enrollments rows) (draw_code w n)
  unfolding draw_code
  draw_code-Keeps zero = search keeps_rules
  draw_code-Keeps (suc n) =
      Keeps-bind (call (λ k. w.randbelow k 36))
        (λ i. prepend (char_at code_alphabet i "A") (draw_code w n)) (call-Keeps _)
        λ i. prepend-Keeps _ (draw_code w n) (draw_code-Keeps n)

  generate_code-Keeps : Keeps (Enrollments rows) (generate_code w)
  unfolding generate_code
  generate_code-Keeps = search (keeps_rules, draw_code-Keeps)

  by_approvecode-Keeps : (code : String) → Keeps (Enrollments rows) (by_approvecode code)
  unfolding by_approvecode
  by_approvecode-Keeps code = record { at = λ s h. ground arith }

  pub unused-Keeps :
      Keeps (Enrollments rows) (generate_unused_code by_approvecode (generate_code w))
  unfolding generate_unused_code
  unused-Keeps = search (find_unused-Keeps, by_approvecode-Keeps, generate_code-Keeps)

-- No row, or one live row with a new callsign, was added.
abbrev pub IsAdded : World → List Enrollment → List Enrollment → Type 0
IsAdded w before after =
    (after ≡ before)
    ⊎ ((row : Enrollment) × (row.deleted ≡ none)
        × (find_first (enrollment_callsign w row.callsign) before ≡ none)
        × (after ≡ before ++ row ∷ []))

IsTable-added :
    (w : World) (before after : List Enrollment)
    → IsAdded w before after
    → IsTable w before
    → IsTable w after
IsTable-added w before after (inl same) table = rw same table
IsTable-added w before after (inr (row, live, new, more)) table =
    rw more (IsTable-add w before row live new table)

module _ (w : World) (callsign : String) (pool : Option ℕ) (extra : Option Dict)
    (csr : Option String) where
  enroll-rows :
      (code : String) (u : Store)
      → find_first (enrollment_callsign w callsign) u.enrollments ≡ none
      → IsAdded w u.enrollments (enroll w callsign pool extra csr code u).1.enrollments
  unfolding enroll insert_enrollment call
  enroll-rows code u new =
      let row = new_enrollment (w.uuid4 u.calls) code callsign pool extra csr in
      elim (Bool-cases (any (enrollment_clashes row) u.enrollments)) [
        | inl taken ↦ inl (ground arith)
        | inr free ↦ inr (row, refl, new, ground arith)
      ]

  enrolled :
      (rows : List Enrollment) (d : Result String × Store)
      → find_first (enrollment_callsign w callsign) rows ≡ none
      → d.1.enrollments ≡ rows
      → IsAdded w rows
          (elim d.0 as (λ _. Result Enrollment × Store) [
            | ok code ↦ enroll w callsign pool extra csr code d.1
            | err e ↦ (err e, d.1)
          ]).1.enrollments
  enrolled rows (ok code, u) new same =
      subst (λ rs. IsAdded w rs (enroll w callsign pool extra csr code u).1.enrollments) same
        (enroll-rows code u
          (subst (λ rs. find_first (enrollment_callsign w callsign) rs ≡ none) (sym same) new))
  enrolled rows (err e, u) new same = inl same

  pub found_deleted :
      (rows : List Enrollment) (row : Enrollment)
      → All (λ (e : Enrollment). e.deleted ≡ none) rows
      → find_first (enrollment_callsign w callsign) rows ≡ some row
      → row.deleted ≡ none
  unfolding find_first
  found_deleted [] row a h = ground arith
  found_deleted (r ∷ rs) row a h = ground (arith, found_deleted rs row)

  taken-rows :
      (s : Store) (row : Enrollment)
      → row.deleted ≡ none
      → find_first (enrollment_callsign w callsign) s.enrollments ≡ some row
      → (create_for_callsign w callsign pool extra csr s).1 ≡ s
  unfolding create_for_callsign check_enrollment_free check_product_names check_csr by_callsign
      is_not_found
  taken-rows s row live found = ground arith

  new-rows :
      (s : Store)
      → find_first (enrollment_callsign w callsign) s.enrollments ≡ none
      → ((create_for_callsign w callsign pool extra csr s).1 ≡ s)
        ⊎ (create_for_callsign w callsign pool extra csr s
            ≡ (generate_unused_code by_approvecode (generate_code w)
                  >>= enroll w callsign pool extra csr)
                s)
  unfolding create_for_callsign check_enrollment_free check_product_names check_csr by_callsign
      is_not_found
  new-rows s new = ground arith

  -- A new enrollment keeps the table: callsigns stay distinct but for case, and nothing is
  -- deleted, however the call ends.
  pub create_for_callsign-IsTable :
      (s : Store)
      → IsTable w s.enrollments
      → IsTable w (create_for_callsign w callsign pool extra csr s).1.enrollments
  create_for_callsign-IsTable s table =
      elim (Option-cases (find_first (enrollment_callsign w callsign) s.enrollments)) [
        | inl new ↦ elim (new-rows s new) [
          | inl same ↦ rw same table
          | inr step ↦ rw step (
              IsTable-added w s.enrollments _
                (enrolled s.enrollments _ new ((unused-Keeps w s.enrollments).at s refl)) table)
        ]
        | inr (row, found) ↦
            rw (taken-rows s row (found_deleted s.enrollments row table.undeleted found) found)
              table
      ]
