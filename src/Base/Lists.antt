-- ===== src/Base/Lists.antt =====
-- Rows of a table: selection, `first()`, update of the rows that fit a condition.
use mathlib.Core.Path.{◌≡◌, refl, subst}
use mathlib.Core.Bool.{Bool, true, false, not, ◌||◌}
use mathlib.Core.Logic.{inl, inr}
use mathlib.Core.Option
use mathlib.Core.Option.{Option, none, some}
use mathlib.Core.List.{List, [], ◌∷◌, ◌++◌, map}
use native.Mathlib.Omega.{arith}
use python_rasenmaeher_api.Base.Tests.{is_some, if◌then◌else◌, Bool-cases}

abbrev pub All {ℓ κ} : {A : Type ℓ} → (A → Type κ) → List A → Type κ
All P [] = Unit
All P (x ∷ xs) = P x × All P xs

module _ {ℓ} {A : Type ℓ} where
  -- The first row that fits, as `session.exec(statement).first()` returns it.
  unfoldable pub find_first : (A → Bool) → List A → Option A
  find_first p [] = none
  find_first p (x ∷ xs) = if p x then some x else find_first p xs

  -- The rows that fit, in their order.
  unfoldable pub where_rows : (A → Bool) → List A → List A
  where_rows p [] = []
  where_rows p (x ∷ xs) = if p x then x ∷ where_rows p xs else where_rows p xs

  -- `UPDATE … WHERE`
  unfoldable pub update_rows : (A → Bool) → (A → A) → List A → List A
  update_rows p g [] = []
  update_rows p g (x ∷ xs) = (if p x then g x else x) ∷ update_rows p g xs

  unfoldable pub any : (A → Bool) → List A → Bool
  any p [] = false
  any p (x ∷ xs) = p x || any p xs

  -- The row that is found fits.
  pub find_first-fits : (p : A → Bool) (xs : List A) (x : A) → find_first p xs ≡ some x → p x ≡ true
  unfolding find_first
  find_first-fits p [] x h = ground arith
  find_first-fits p (y ∷ ys) x h = ground (arith, find_first-fits p ys x)

  -- What holds of every row holds of the row that is found.
  pub find_first-All {κ} :
      (P : A → Type κ) (p : A → Bool) (xs : List A) (x : A)
      → All P xs
      → find_first p xs ≡ some x
      → P x
  unfolding find_first
  find_first-All P p [] x a h = cc
  find_first-All P p (y ∷ ys) x a h = elim (Bool-cases (p y)) [
    | inl e ↦ let q : y ≡ x = ground arith in subst P q a.0
    | inr e ↦ find_first-All P p ys x a.1 (ground arith)
  ]

  pub find_first-none :
      (p : A → Bool) (xs : List A) → find_first p xs ≡ none → All (λ x. p x ≡ false) xs
  unfolding find_first
  find_first-none p [] h = tt
  find_first-none p (x ∷ xs) h = ground (arith, find_first-none p xs)

  pub any-eq-false : (p : A → Bool) (xs : List A) → find_first p xs ≡ none → any p xs ≡ false
  unfolding find_first any
  any-eq-false p [] h = refl
  any-eq-false p (x ∷ xs) h = ground (arith, any-eq-false p xs)

  pub find_first-append :
      (p : A → Bool) (xs ys : List A)
      → find_first p xs ≡ none
      → find_first p (xs ++ ys) ≡ find_first p ys
  unfolding find_first
  find_first-append p [] ys h = refl
  find_first-append p (x ∷ xs) ys h = ground (arith, find_first-append p xs ys)

  pub find_first-append_some :
      (p : A → Bool) (xs ys : List A) (x : A)
      → find_first p xs ≡ some x
      → find_first p (xs ++ ys) ≡ some x
  unfolding find_first
  find_first-append_some p [] ys x h = ground arith
  find_first-append_some p (y ∷ xs) ys x h = ground (arith, find_first-append_some p xs ys x)

  -- An update that keeps the condition is seen by the search for it.
  pub find_first-update_rows :
      (p : A → Bool) (g : A → A) (xs : List A)
      → ((x : A) → p (g x) ≡ p x)
      → find_first p (update_rows p g xs) ≡ Option.map g (find_first p xs)
  unfolding find_first update_rows
  find_first-update_rows p g [] k = refl
  find_first-update_rows p g (x ∷ xs) k = ground (arith, k x, find_first-update_rows p g xs k)

  -- An update of other rows is not.
  pub All-update_rows {κ} :
      (P : A → Type κ) (p : A → Bool) (g : A → A) (xs : List A)
      → ((x : A) → P x → P (g x))
      → All P xs
      → All P (update_rows p g xs)
  unfolding update_rows
  All-update_rows P p g [] k a = tt
  All-update_rows P p g (x ∷ xs) k a = elim (Bool-cases (p x)) [
    | inl e ↦ rw e (k x a.0, All-update_rows P p g xs k a.1)
    | inr e ↦ rw e (a.0, All-update_rows P p g xs k a.1)
  ]

  pub All-append {κ} :
      (P : A → Type κ) (xs : List A) (y : A) → All P xs → P y → All P (xs ++ y ∷ [])
  All-append P [] y a h = (h, tt)
  All-append P (x ∷ xs) y a h = (a.0, All-append P xs y a.1 h)

  -- A column that the update does not write stays as it is.
  pub map-update_rows {κ} :
      {B : Type κ} (f : A → B) (p : A → Bool) (g : A → A) (xs : List A)
      → ((x : A) → f (g x) ≡ f x)
      → map f (update_rows p g xs) ≡ map f xs
  unfolding update_rows
  map-update_rows f p g [] k = refl
  map-update_rows f p g (x ∷ xs) k = elim (Bool-cases (p x)) [
    | inl e ↦ rw (e, k x, map-update_rows f p g xs k) refl
    | inr e ↦ rw (e, map-update_rows f p g xs k) refl
  ]

  -- An update that fits only the row at the end.
  pub update_rows-append :
      (p : A → Bool) (g : A → A) (xs : List A) (y : A)
      → any p xs ≡ false
      → p y ≡ true
      → update_rows p g (xs ++ y ∷ []) ≡ xs ++ g y ∷ []
  unfolding update_rows any
  update_rows-append p g [] y h k = ground arith
  update_rows-append p g (x ∷ xs) y h k = ground (arith, update_rows-append p g xs y)

  pub find_first_of_any : (p : A → Bool) (xs : List A) → any p xs ≡ false → find_first p xs ≡ none
  unfolding find_first any
  find_first_of_any p [] h = refl
  find_first_of_any p (x ∷ xs) h = ground (arith, find_first_of_any p xs)

  -- Removing the row at the end, the only one that fits.
  pub where_rows-not-append :
      (p : A → Bool) (xs : List A) (y : A)
      → any p xs ≡ false
      → p y ≡ true
      → where_rows (λ x. not (p x)) (xs ++ y ∷ []) ≡ xs
  unfolding where_rows any
  where_rows-not-append p [] y h k = ground arith
  where_rows-not-append p (x ∷ xs) y h k = ground (arith, where_rows-not-append p xs y)

  -- After the rows that fit have been removed, none is found.
  pub find_first-where_rows-not :
      (p : A → Bool) (xs : List A) → find_first p (where_rows (λ x. not (p x)) xs) ≡ none
  unfolding find_first where_rows
  find_first-where_rows-not p [] = refl
  find_first-where_rows-not p (x ∷ xs) = ground (arith, find_first-where_rows-not p xs)

  -- A search in a table with one more row.
  pub found-append :
      (p : A → Bool) (xs : List A) (y : A)
      → is_some (find_first p (xs ++ y ∷ [])) ≡ (is_some (find_first p xs) || p y)
  unfolding find_first
  found-append p [] y = ground arith
  found-append p (x ∷ xs) y = ground (arith, found-append p xs y)

  pub where_rows-not_of_any :
      (p : A → Bool) (xs : List A) → any p xs ≡ false → where_rows (λ x. not (p x)) xs ≡ xs
  unfolding where_rows any
  where_rows-not_of_any p [] h = refl
  where_rows-not_of_any p (x ∷ xs) h = ground (arith, where_rows-not_of_any p xs)

  -- A row that a search returns is in the table.
  pub any-find_first :
      (p q : A → Bool) (xs : List A) (x : A)
      → any p xs ≡ false
      → find_first q xs ≡ some x
      → p x ≡ false
  unfolding find_first any
  any-find_first p q [] x h k = ground arith
  any-find_first p q (y ∷ ys) x h k = elim (Bool-cases (q y)) [
    | inl e ↦ let same : y ≡ x = ground arith in rw (← same) (ground arith)
    | inr e ↦ any-find_first p q ys x (ground arith) (ground arith)
  ]

  pub found_of_any : (p : A → Bool) (xs : List A) → any p xs ≡ is_some (find_first p xs)
  unfolding find_first any
  found_of_any p [] = refl
  found_of_any p (x ∷ xs) = ground (arith, found_of_any p xs)

  -- What a search finds after the rows that fit another test were changed.
  pub find_first-update_other :
      (q r : A → Bool) (g : A → A) (xs : List A) (x : A)
      → ((y : A) → q (g y) ≡ q y)
      → find_first q xs ≡ some x
      → r x ≡ true
      → find_first q (update_rows r g xs) ≡ some (g x)
  unfolding find_first update_rows
  find_first-update_other q r g [] x keeps h fits = ground arith
  find_first-update_other q r g (y ∷ ys) x keeps h fits = elim (Bool-cases (q y)) [
    | inl found ↦ ground (arith, keeps y)
    | inr other ↦ ground (arith, keeps y, find_first-update_other q r g ys x keeps)
  ]
