-- ===== src/Db/People/Roles/Laws.antt =====
-- A role that was assigned is there, one that was removed is not, and no other pair of a person
-- and a role is touched.
use python_rasenmaeher_api.Base.{
  ap, ◌∙◌, refl, ◌++◌, Option-cases, [], any-find_first, inr, found_of_any, where_rows-not_of_any,
  inl, Bool-cases, some, false, where_rows, any, ◌∷◌, eq_iff, found-append, arith, eqb, ◌&&◌, ◌==◌,
  ◌||◌, not, find_first, ◌≡◌, is_some, Bool, List, String, ℕ,
}
use python_rasenmaeher_api.Db.{Person, Role, Store, World}
use python_rasenmaeher_api.Db.People.Roles.{remove_role, role_pk, is_assigned, assign_role}
use python_rasenmaeher_api.Exec.{ok}

-- A person holds a role.
abbrev pub holds : ℕ → String → Store → Bool
holds user role s = is_some (find_first (is_assigned user role) s.roles)

-- No pair of a person and a role is listed twice, and no key.
abbrev pub IsTable : List Role → Type 0
IsTable [] = Unit
IsTable (r ∷ rs) =
    (any (is_assigned r.user r.role) rs ≡ false) × (any (role_pk r.pk) rs ≡ false) × IsTable rs

module _ (w : World) where
  -- When `assign_role` returns, the person holds the role, every other pair of a person and a
  -- role is as before, and the result says whether the role was new.
  pub assign_role_lem :
      (person : Person) (role : String) (s t : Store) (new : Bool)
      → assign_role w person role s ≡ (ok new, t)
      → (new ≡ not (holds person.pk role s))
        × ((u : ℕ) (r : String) → holds u r t ≡ (holds u r s || (role == r && eqb person.pk u)))
  unfolding assign_role
  assign_role_lem person role s t new h = (
    ground arith,
    λ u r. ground (
      arith,
      found-append (is_assigned u r) s.roles
          (record { pk = w.uuid4 s.calls; user = person.pk; role = role }),
      eq_iff role r,
    ),
  )

-- Removing the row of a pair takes that pair and no other.
found-remove :
    (user : ℕ) (role : String) (u : ℕ) (r : String) (rs : List Role) (row : Role)
    → IsTable rs
    → find_first (is_assigned user role) rs ≡ some row
    → is_some (find_first (is_assigned u r) (where_rows (λ q. not (role_pk row.pk q)) rs))
      ≡ (is_some (find_first (is_assigned u r) rs) && not (role == r && eqb user u))
unfolding find_first where_rows
found-remove user role u r [] row table h = ground arith
found-remove user role u r (x ∷ xs) row table h = elim (Bool-cases (is_assigned user role x)) [
  | inl fits ↦ ground (
    arith,
    eq_iff x.role role,
    eq_iff x.role r,
    eq_iff role r,
    where_rows-not_of_any (role_pk x.pk) xs table.1,
    found_of_any (is_assigned x.user x.role) xs,
  )
  | inr other ↦ ground (
    arith,
    eq_iff x.role role,
    eq_iff x.role r,
    eq_iff role r,
    any-find_first (role_pk x.pk) (is_assigned user role) xs row table.1,
    found-remove user role u r xs row table.2,
  )
]

module _ (w : World) where
  -- When `remove_role` returns on a table without repetitions, the person does not hold the role,
  -- every other pair of a person and a role is as before, and the result says whether the role
  -- was there.
  pub remove_role_lem :
      (person : Person) (role : String) (s t : Store) (removed : Bool)
      → IsTable s.roles
      → remove_role w person role s ≡ (ok removed, t)
      → (removed ≡ holds person.pk role s)
        × ((u : ℕ) (r : String) → holds u r t ≡ (holds u r s && not (role == r && eqb person.pk u)))
  unfolding remove_role
  remove_role_lem person role s t removed table h =
      elim (Option-cases (find_first (is_assigned person.pk role) s.roles)) [
        | inl missing ↦ (ground arith, λ u r. ground (arith, eq_iff role r))
        | inr (row, found) ↦ (
          ground arith,
          λ u r. ground (arith, found-remove person.pk role u r s.roles row table found),
        )
      ]

any-append_one :
    (p : Role → Bool) (rs : List Role) (x : Role)
    → any p rs ≡ false
    → p x ≡ false
    → any p (rs ++ x ∷ []) ≡ false
unfolding any
any-append_one p [] x h k = ground arith
any-append_one p (r ∷ rs) x h k = ground (arith, any-append_one p rs x)

any-where_rows :
    (p q : Role → Bool) (rs : List Role) → any p rs ≡ false → any p (where_rows q rs) ≡ false
unfolding any where_rows
any-where_rows p q [] h = refl
any-where_rows p q (r ∷ rs) h = ground (arith, any-where_rows p q rs)

IsTable-append :
    (x : Role) (rs : List Role)
    → IsTable rs
    → any (is_assigned x.user x.role) rs ≡ false
    → any (role_pk x.pk) rs ≡ false
    → IsTable (rs ++ x ∷ [])
unfolding any
IsTable-append x [] table h k = (refl, refl, tt)
IsTable-append x (r ∷ rs) table h k = (
  any-append_one (is_assigned r.user r.role) rs x table.0
      (ground (arith, eq_iff r.role x.role, eq_iff x.role r.role)),
  any-append_one (role_pk r.pk) rs x table.1 (ground arith),
  IsTable-append x rs table.2 (ground arith) (ground arith),
)

IsTable-where_rows : (q : Role → Bool) (rs : List Role) → IsTable rs → IsTable (where_rows q rs)
unfolding where_rows
IsTable-where_rows q [] table = tt
IsTable-where_rows q (r ∷ rs) table = elim (Bool-cases (q r)) [
  | inl e ↦ rw e (
    any-where_rows _ q rs table.0,
    any-where_rows _ q rs table.1,
    IsTable-where_rows q rs table.2,
  )
  | inr e ↦ rw e (IsTable-where_rows q rs table.2)
]

module _ (w : World) where
  assign_role-IsTable :
      (person : Person) (role : String) (s : Store)
      → IsTable s.roles
      → IsTable (assign_role w person role s).1.roles
  unfolding assign_role
  assign_role-IsTable person role s table =
      elim (Option-cases (find_first (is_assigned person.pk role) s.roles)) [
        | inl missing ↦ elim (Bool-cases (any (role_pk (w.uuid4 s.calls)) s.roles)) [
          | inl taken ↦
              let same : (assign_role w person role s).1.roles ≡ s.roles = ground arith in
              rw same table
          | inr free ↦
              let new : Role = record { pk = w.uuid4 s.calls; user = person.pk; role = role } in
              let more : (assign_role w person role s).1.roles ≡ s.roles ++ new ∷ [] =
                ground arith in
              rw more (
                IsTable-append new s.roles table
                  (found_of_any (is_assigned person.pk role) s.roles ∙ ap is_some missing) free)
        ]
        | inr (row, found) ↦
            let same : (assign_role w person role s).1.roles ≡ s.roles = ground arith in
            rw same table
      ]

  remove_role-IsTable :
      (person : Person) (role : String) (s : Store)
      → IsTable s.roles
      → IsTable (remove_role w person role s).1.roles
  unfolding remove_role
  remove_role-IsTable person role s table =
      elim (Option-cases (find_first (is_assigned person.pk role) s.roles)) [
        | inl missing ↦
            let same : (remove_role w person role s).1.roles ≡ s.roles = ground arith in
            rw same table
        | inr (row, found) ↦
            let less : (remove_role w person role s).1.roles
                ≡ where_rows (λ r. not (role_pk row.pk r)) s.roles =
              ground arith in
            rw less (IsTable-where_rows _ s.roles table)
      ]

  -- However the two operations end, no pair of a person and a role is listed twice afterwards,
  -- and no key, if none was before.
  pub roles-IsTable :
      (person : Person) (role : String) (s : Store)
      → IsTable s.roles
      → IsTable (assign_role w person role s).1.roles
        × IsTable (remove_role w person role s).1.roles
  unfolding assign_role remove_role
  roles-IsTable person role s table =
      (assign_role-IsTable person role s table, remove_role-IsTable person role s table)
