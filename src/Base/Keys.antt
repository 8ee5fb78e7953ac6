-- ===== src/Base/Keys.antt =====
-- Columns in which no value is repeated: the unique indexes of the tables.
use Prim.Native.String.{String}
use mathlib.Core.Path.{◌≡◌}
use mathlib.Core.Bool.{false}
use mathlib.Core.Option.{none}
use mathlib.Core.List.{List, [], ◌∷◌, ◌++◌, map}
use native.Mathlib.Omega.{arith}
use text.Mathlib.Text.{◌==◌}
use python_rasenmaeher_api.Base.Lists.{All, All-append, find_first}

-- No two values of the column are equal.
abbrev pub Distinct : List String → Type 0
Distinct [] = Unit
Distinct (k ∷ ks) = All (λ j. (k == j) ≡ false) ks × Distinct ks

-- A value that the column does not have can be added.
pub Distinct-append :
    (ks : List String) (k : String)
    → All (λ j. (j == k) ≡ false) ks
    → Distinct ks
    → Distinct (ks ++ k ∷ [])
Distinct-append [] k a d = (tt, tt)
Distinct-append (j ∷ ks) k a d =
    (All-append (λ i. (j == i) ≡ false) ks k d.0 a.0, Distinct-append ks k a.1 d.1)

-- A value by which no row is found is not in the column.
pub All-of_find_first {ℓ} :
    {A : Type ℓ} (f : A → String) (k : String) (xs : List A)
    → find_first (λ x. f x == k) xs ≡ none
    → All (λ j. (j == k) ≡ false) (map f xs)
unfolding find_first
All-of_find_first f k [] h = tt
All-of_find_first f k (x ∷ xs) h = ground (arith, All-of_find_first f k xs)
