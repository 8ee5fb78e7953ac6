-- ===== src/Web/People/Laws.antt =====
-- A person who is revoked by a request is no longer valid.
use python_rasenmaeher_api.Base.{
  ◌∙◌, ap, true, ◌==◌, is_some, false, String, ◌≡◌, inl, inr, Bool, some, List, [], ◌∷◌, arith,
  eqb_refl, Bool-cases, find_first, update_rows,
}
use python_rasenmaeher_api.Db.{audit, Store, checked, World, Person}
use python_rasenmaeher_api.Db.People.{same_callsign, by_callsign, has_pk}
use python_rasenmaeher_api.Web.People.{report_deleted, delete_found, revoke_person, delete_person}
use python_rasenmaeher_api.Web.Validity.{is_product_cn, is_valid}
use python_rasenmaeher_api.Web.Auth.{admin, Request}
use python_rasenmaeher_api.Exec.{>>=-eq-ok, ok, is_not_found}
use python_rasenmaeher_api.Db.People.Revocation.{delete}
use python_rasenmaeher_api.Db.People.Revocation.Laws.{delete-persons}
use python_rasenmaeher_api.Web.{refuse, found_or_404}

-- What a search that is not by key finds after the row it finds was changed.
find_first-marked :
    (q : Person → Bool) (g : Person → Person) (ps : List Person) (p : Person)
    → ((x : Person) → q (g x) ≡ q x)
    → find_first q ps ≡ some p
    → find_first q (update_rows (has_pk p.pk) g ps) ≡ some (g p)
unfolding find_first update_rows
find_first-marked q g [] p keeps h = ground arith
find_first-marked q g (x ∷ xs) p keeps h = elim (Bool-cases (q x)) [
  | inl fits ↦ ground (arith, eqb_refl p.pk, keeps x)
  | inr other ↦ ground (arith, keeps x, find_first-marked q g xs p keeps)
]

module _ (w : World) where
  by_callsign-found :
      (callsign : String) (u v : Store) (p : Person)
      → by_callsign w callsign false u ≡ (ok p, v)
      → (v ≡ u) × (find_first (same_callsign w callsign) u.persons ≡ some p)
  unfolding by_callsign checked
  by_callsign-found callsign u v p h = (ground arith, ground arith)

  found_or_404-found :
      (action code callsign : String) (s u : Store) (p : Person)
      → found_or_404 action (some callsign) code (by_callsign w callsign false) s ≡ (ok p, u)
      → (u ≡ s) × (find_first (same_callsign w callsign) u.persons ≡ some p)
  unfolding found_or_404 refuse by_callsign checked
  found_or_404-found action code callsign s u p h = (ground arith, ground arith)

  revoke_person-persons :
      (callsign : String) (p : Person) (u t : Store) (b : Bool)
      → revoke_person w callsign p u ≡ (ok b, t)
      → t.persons ≡ (delete w p u).1.persons
  unfolding revoke_person report_deleted audit
  revoke_person-persons callsign p u t b h = ground arith

  -- The person who is found, and the state in which the person is revoked.
  revoked_person :
      (request : Request) (callsign : String) (s t : Store) (b : Bool)
      → delete_person w request callsign s ≡ (ok b, t)
      → (p : Person) × (u : Store) × (find_first (same_callsign w callsign) u.persons ≡ some p)
        × (t.persons ≡ (delete w p u).1.persons)
  unfolding delete_person delete_found
  revoked_person request callsign s t b h =
      let (_, v, _, h1) = >>=-eq-ok (λ _. delete_found w callsign) t b (admin w request) s h in
      let (p, u, found, h2) =
        >>=-eq-ok (revoke_person w callsign) t b
          (found_or_404 "user_revoke" (some callsign) "USER_NOT_FOUND"
            (by_callsign w callsign false))
          v h1 in
      let (_, first) = found_or_404-found "user_revoke" "USER_NOT_FOUND" callsign v u p found in
      (p, u, first, revoke_person-persons callsign p u t b h2)

  gone :
      (callsign : String) (t : Store) (p : Person)
      → find_first (same_callsign w callsign) t.persons ≡ some p
      → is_some p.deleted ≡ true
      → (callsign == w.settings.mtls_client_cert_cn) ≡ false
      → is_product_cn w.settings callsign ≡ false
      → is_valid w callsign t ≡ (ok false, t)
  unfolding is_valid by_callsign checked is_not_found
  gone callsign t p found deleted h1 h2 = ground arith

  -- When the request to revoke a person returns, with success or with a backend failure, the
  -- callsign is no longer valid in any case of its letters, unless it is also a service's name.
  pub is_valid-delete_person :
      (request : Request) (callsign other : String) (s t : Store) (b : Bool)
      → delete_person w request callsign s ≡ (ok b, t)
      → w.lower other ≡ w.lower callsign
      → (other == w.settings.mtls_client_cert_cn) ≡ false
      → is_product_cn w.settings other ≡ false
      → is_valid w other t ≡ (ok false, t)
  is_valid-delete_person request callsign other s t b h same h1 h2 =
      let (p, u, found, persons) = revoked_person request callsign s t b h in
      let (g, (keeps, marks, updates)) = delete-persons w p u in
      gone other t (g p)
        (ap (find_first (same_callsign w other)) (persons ∙ updates)
          ∙ find_first-marked (same_callsign w other) g u.persons p
              (λ x. ap (λ c. w.lower c == w.lower other) (keeps x))
              (ap (λ c. find_first (λ (x : Person). w.lower x.callsign == c) u.persons) same
                ∙ found))
        (marks p) h1 h2
