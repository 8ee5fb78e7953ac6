-- ===== src/Web/Audit/Laws.antt =====
-- What a line of the audit log about a request may hold.
use Prim.Native.Char.{code}
use Prim.Native.String
use python_rasenmaeher_api.Base.{
  ◌&&◌, zero, eqb, suc, not, ◌∷◌, [], List, ℕ, String, Bool, true, Option, none, some,
}
use python_rasenmaeher_api.Web.Audit.Values.{IsLine}

-- To read off a text that is written out that it is a line.
lacks : ℕ → String → Bool
lacks n String.[] = true
lacks n (String.◌∷◌ c s) = not (eqb (code c) n) && lacks n s

abbrev IsLineIfAny : Option String → Type 0
IsLineIfAny none = Unit
IsLineIfAny (some v) = IsLine 256 v

abbrev AreLines : ℕ → ℕ → List String → Type 0
AreLines n m [] = Unit
AreLines n zero (p ∷ ps) = ⊥
AreLines n (suc m) (p ∷ ps) = IsLine n p × AreLines n m ps

count : List String → ℕ
count [] = 0
count (k ∷ ks) = suc (count ks)
