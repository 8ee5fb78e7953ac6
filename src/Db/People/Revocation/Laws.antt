-- ===== src/Db/People/Revocation/Laws.antt =====
-- A revoked person is deleted, whether the backends could be told or not.
use mathlib.Core.Option
use python_rasenmaeher_api.Base.{
  find_first-update_rows, ℕ, String, ◌≡◌, refl, ap, ◌∙◌, ◌⊎◌, inl, inr, true, false, Option, some,
  List, arith, eqb, Bool-cases, is_some, find_first, update_rows,
}
use python_rasenmaeher_api.Exec.{backend_error, ok, err}
use python_rasenmaeher_api.Db.{ReasonFlag, Person, Store, World}
use python_rasenmaeher_api.Db.People.Revocation.{
  has_cert, delete_row, mark_and_tell, revoke, delete,
}
use python_rasenmaeher_api.Db.People.{has_pk}
use python_rasenmaeher_api.Cert.{flag}

-- A row of the table as it is after the person was marked.
abbrev pub IsMarked : Person → Person → Type 0
IsMarked before after =
    (after.pk ≡ before.pk) × (after.callsign ≡ before.callsign) × (is_some after.deleted ≡ true)

-- An update of the row with a key is found by that key.
pub find_first-marked :
    (pk : ℕ) (g : Person → Person) (ps : List Person) (p : Person)
    → ((q : Person) → (g q).pk ≡ q.pk)
    → find_first (has_pk pk) ps ≡ some p
    → find_first (has_pk pk) (update_rows (has_pk pk) g ps) ≡ some (g p)
find_first-marked pk g ps p keeps h =
    find_first-update_rows (has_pk pk) g ps (λ q. ap (λ k. eqb k pk) (keeps q))
    ∙ ap (Option.map g) h

module _ (w : World) where
  mark : Store → Option String → Person → Person
  mark s reason p = record p { deleted = some (w.utcnow s.calls); revoke_reason = reason }

  revoke_marks :
      (person : Person) (reason : ReasonFlag) (s : Store)
      → ((revoke w person (flag reason) s).0 ≡ ok true)
        ⊎ ((revoke w person (flag reason) s).0 ≡ err backend_error)
  unfolding revoke mark_and_tell
  revoke_marks person reason s = ground arith

  persons-revoke :
      (person : Person) (reason : ReasonFlag) (s : Store)
      → (revoke w person (flag reason) s).1.persons
        ≡ update_rows (has_pk person.pk) (mark s (some reason.value)) s.persons
  unfolding revoke mark_and_tell mark
  persons-revoke person reason s = ground arith

  delete_row-ok : (person : Person) (s : Store) → (delete_row w person s).0 ≡ ok true
  unfolding delete_row
  delete_row-ok person s = refl

  persons-delete_row :
      (person : Person) (s : Store)
      → (delete_row w person s).1.persons
        ≡ update_rows
            (has_pk person.pk)
            (λ p. record p { deleted = some (w.utcnow s.calls) })
            s.persons
  unfolding delete_row
  persons-delete_row person s = refl

  delete-signed :
      (person : Person) (s : Store)
      → has_cert person.pk s ≡ true
      → delete w person s ≡ revoke w person (flag w.privilege_withdrawn) s
  unfolding delete
  delete-signed person s h = ground arith

  delete-unsigned :
      (person : Person) (s : Store)
      → has_cert person.pk s ≡ false
      → delete w person s ≡ delete_row w person s
  unfolding delete
  delete-unsigned person s h = ground arith

  -- Whatever the certificate backend, Keycloak and the products answer, after `delete` of a person
  -- of the table the row with that key is the old one, marked as deleted: `delete` returns true or
  -- raises `BackendError`, and in both cases the mark is committed.
  pub delete_marks :
      (person : Person) (s : Store)
      → find_first (has_pk person.pk) s.persons ≡ some person
      → let (r, t) = delete w person s in
        ((r ≡ ok true) ⊎ (r ≡ err backend_error))
        × (after : Person) × (find_first (has_pk person.pk) t.persons ≡ some after)
        × IsMarked person after
  unfolding mark
  delete_marks person s h = elim (Bool-cases (has_cert person.pk s)) [
    | inl signed ↦ rw (delete-signed person s signed) (
      revoke_marks person w.privilege_withdrawn s,
      mark s (some w.privilege_withdrawn.value) person,
      rw (persons-revoke person w.privilege_withdrawn s)
          (find_first-marked person.pk _ s.persons person (λ q. refl) h),
      (refl, refl, refl),
    )
    | inr unsigned ↦ rw (delete-unsigned person s unsigned) (
      inl (delete_row-ok person s),
      record person { deleted = some (w.utcnow s.calls) },
      rw (persons-delete_row person s)
          (find_first-marked person.pk _ s.persons person (λ q. refl) h),
      (refl, refl, refl),
    )
  ]

  -- The change of the table that `delete` makes, however it ends.
  abbrev pub IsMarking : Person → Store → (Person → Person) → Type 0
  IsMarking person s g =
      ((q : Person) → (g q).callsign ≡ q.callsign)
      × ((q : Person) → is_some (g q).deleted ≡ true)
      × ((delete w person s).1.persons ≡ update_rows (has_pk person.pk) g s.persons)

  pub delete-persons : (person : Person) (s : Store) → (g : Person → Person) × IsMarking person s g
  unfolding mark
  delete-persons person s = elim (Bool-cases (has_cert person.pk s)) [
    | inl signed ↦ (
      mark s (some w.privilege_withdrawn.value),
      (
        (λ q. refl),
        (λ q. refl),
        rw (delete-signed person s signed) (persons-revoke person w.privilege_withdrawn s),
      ),
    )
    | inr unsigned ↦ (
      (λ p. record p { deleted = some (w.utcnow s.calls) }),
      (
        (λ q. refl),
        (λ q. refl),
        rw (delete-unsigned person s unsigned) (persons-delete_row person s),
      ),
    )
  ]
