-- ===== src/Text/Laws.antt =====
-- Lengths of texts, and texts in which a character does not occur.
use Prim.Native.Char.{Char, code}
use Prim.Native.String
use Prim.Native.String.append
use python_rasenmaeher_api.Base.{
  true, if◌then◌else◌, Bool, ℕ, zero, suc, ◌+◌, ◌≤◌, String, ◌≡◌, ap, ◌∙◌, false, arith, eqb,
}
use python_rasenmaeher_api.Text.{
  is_space, before_char, strip, rstrip, keep_space, lstrip, length, remove_char, take,
}

-- The code point does not occur in the text.
abbrev pub Lacks : ℕ → String → Type 0
Lacks n String.[] = Unit
Lacks n (String.◌∷◌ c s) = (eqb (code c) n ≡ false) × Lacks n s

pub if_keeps : (P : String → Type 0) (b : Bool) (s t : String) → P s → P t → P (if b then s else t)
if_keeps P true s t hs ht = hs
if_keeps P false s t hs ht = ht

pub length-take : (n : ℕ) (s : String) → length (take n s) ≤ n
unfolding length take
length-take zero s = omega arith
length-take (suc n) String.[] = omega arith
length-take (suc n) (String.◌∷◌ c s) = let h = length-take n s in omega arith

pub length-append : (s t : String) → length (String.◌++◌ s t) ≡ length s + length t
unfolding length
length-append String.[] t = ap length (append.nil t) ∙ omega arith
length-append (String.◌∷◌ c s) t =
    ap length (append.cons c s t) ∙ ap (λ n. n + 1) (length-append s t) ∙ omega arith

module _ (n : ℕ) where
  pub Lacks-append : (s t : String) → Lacks n s → Lacks n t → Lacks n (String.◌++◌ s t)
  Lacks-append String.[] t hs ht = rw (append.nil t) ht
  Lacks-append (String.◌∷◌ c s) t hs ht = rw (append.cons c s t) (hs.0, Lacks-append s t hs.1 ht)

  pub Lacks-take : (m : ℕ) (s : String) → Lacks n s → Lacks n (take m s)
  unfolding take
  Lacks-take zero s h = tt
  Lacks-take (suc m) String.[] h = tt
  Lacks-take (suc m) (String.◌∷◌ c s) h = (h.0, Lacks-take m s h.1)

  pub Lacks-remove_char : (s : String) → Lacks n (remove_char n s)
  unfolding remove_char
  Lacks-remove_char String.[] = tt
  Lacks-remove_char (String.◌∷◌ c s) = ground (arith, Lacks-remove_char s)

  pub Lacks-remove_other : (m : ℕ) (s : String) → Lacks n s → Lacks n (remove_char m s)
  unfolding remove_char
  Lacks-remove_other m String.[] h = tt
  Lacks-remove_other m (String.◌∷◌ c s) h = ground (arith, Lacks-remove_other m s h.1)

  Lacks-lstrip : (s : String) → Lacks n s → Lacks n (lstrip s)
  unfolding lstrip
  Lacks-lstrip String.[] h = tt
  Lacks-lstrip (String.◌∷◌ c s) h = ground (arith, Lacks-lstrip s h.1)

  Lacks-keep_space :
      (c : Char) (s : String) → eqb (code c) n ≡ false → Lacks n s → Lacks n (keep_space c s)
  unfolding keep_space
  Lacks-keep_space c String.[] e h =
      if_keeps (Lacks n) (is_space (code c)) "" (String.◌∷◌ c "") tt (e, tt)
  Lacks-keep_space c (String.◌∷◌ d s) e h = (e, h)

  Lacks-rstrip : (s : String) → Lacks n s → Lacks n (rstrip s)
  unfolding rstrip
  Lacks-rstrip String.[] h = tt
  Lacks-rstrip (String.◌∷◌ c s) h = Lacks-keep_space c (rstrip s) h.0 (Lacks-rstrip s h.1)

  pub Lacks-strip : (s : String) → Lacks n s → Lacks n (strip s)
  unfolding strip
  Lacks-strip s h = Lacks-rstrip (lstrip s) (Lacks-lstrip s h)

  pub Lacks-before_char : (m : ℕ) (s : String) → Lacks n s → Lacks n (before_char m s)
  unfolding before_char
  Lacks-before_char m String.[] h = tt
  Lacks-before_char m (String.◌∷◌ c s) h =
      if_keeps (Lacks n) (eqb (code c) m) "" (String.◌∷◌ c (before_char m s)) tt
        (h.0, Lacks-before_char m s h.1)

length-lstrip : (s : String) → length (lstrip s) ≤ length s
unfolding length lstrip
length-lstrip String.[] = omega arith
length-lstrip (String.◌∷◌ c s) = ground (arith, length-lstrip s)

length-keep_space : (c : Char) (s : String) → length (keep_space c s) ≤ length s + 1
unfolding length keep_space
length-keep_space c String.[] =
    if_keeps (λ u. length u ≤ 1) (is_space (code c)) "" (String.◌∷◌ c "") (omega arith)
      (omega arith)
length-keep_space c (String.◌∷◌ d s) = omega arith

length-rstrip : (s : String) → length (rstrip s) ≤ length s
unfolding length rstrip
length-rstrip String.[] = omega arith
length-rstrip (String.◌∷◌ c s) =
    let h = length-keep_space c (rstrip s) in let k = length-rstrip s in omega arith

pub length-strip : (s : String) → length (strip s) ≤ length s
unfolding strip
length-strip s = let h = length-rstrip (lstrip s) in let k = length-lstrip s in omega arith

pub length-before_char : (n : ℕ) (s : String) → length (before_char n s) ≤ length s
unfolding length before_char
length-before_char n String.[] = omega arith
length-before_char n (String.◌∷◌ c s) =
    let h = length-before_char n s in
    if_keeps (λ u. length u ≤ length s + 1) (eqb (code c) n) "" (String.◌∷◌ c (before_char n s))
      (omega arith) (omega arith)
