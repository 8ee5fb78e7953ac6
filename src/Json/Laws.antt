-- ===== src/Json/Laws.antt =====
-- What a dictionary has after a key was written.
use python_rasenmaeher_api.Base.{
  String, ◌≡◌, refl, inl, inr, true, some, List, [], ◌∷◌, arith, ◌==◌, eq_iff, eq_refl,
  if◌then◌else◌, Bool-cases, is_some,
}
use python_rasenmaeher_api.Json.{lookup, insert}

module _ {ℓ} {V : Type ℓ} where
  pub lookup-insert :
      (k j : String) (v : V) (d : List (String × V))
      → lookup j (insert k v d) ≡ (if k == j then some v else lookup j d)
  unfolding lookup insert
  lookup-insert k j v [] = refl
  lookup-insert k j v ((i, w) ∷ d) =
      ground (arith, eq_iff k j, eq_iff i k, eq_iff i j, lookup-insert k j v d)

  pub lookup-insert_self :
      (k : String) (v : V) (d : List (String × V)) → lookup k (insert k v d) ≡ some v
  lookup-insert_self k v d = ground (arith, lookup-insert k k v d, eq_refl k)

  -- A key that is there stays there.
  pub is_some-lookup-insert :
      (k j : String) (v : V) (d : List (String × V))
      → is_some (lookup j d) ≡ true
      → is_some (lookup j (insert k v d)) ≡ true
  is_some-lookup-insert k j v d h = elim (Bool-cases (k == j)) [
    | inl e ↦ ground (arith, lookup-insert k j v d)
    | inr e ↦ ground (arith, lookup-insert k j v d)
  ]
