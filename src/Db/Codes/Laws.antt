-- ===== src/Db/Codes/Laws.antt =====
-- Codes are made of the alphabet's characters, have the configured length, and are not in use.
use Prim.Native.Char.{Char, code}
use python_rasenmaeher_api.Base.{
  ℕ, zero, suc, ◌+◌, ◌≤◌, String, ◌≡◌, refl, ◌∙◌, ◌⊎◌, inl, inr, Bool, true, false, not, arith, eqb,
  if◌then◌else◌, Bool-cases,
}
use python_rasenmaeher_api.Exec.{
  runtime_error, >>=-eq-ok, Error, Result, ok, err, is_not_found, ◌>>=◌,
}
use python_rasenmaeher_api.Db.{call, Action, World, Store}
use python_rasenmaeher_api.Db.Codes.{
  keep_or, is_taken, avoid_confusion, find_unused, generate_code, draw_code, code_alphabet, char_at,
  replace,
}
use python_rasenmaeher_api.Exec.Keeps.{Keeps-bind, Keeps-raise, keeps_rules, Keeps-pure, Keeps}

-- A character of a code: an upper case letter, or a digit that `allowed` lets through.
abbrev pub IsCodeChar : Bool → Char → Type 0
IsCodeChar confusing c =
    ((b'A' ≤ code c) × (code c ≤ b'Z'))
    ⊎ ((b'0' ≤ code c) × (code c ≤ b'9') × ((confusing ≡ true) ⊎ (b'2' ≤ code c)))

abbrev pub AllChars : (Char → Type 0) → String → Type 0
AllChars P String.[] = Unit
AllChars P (String.◌∷◌ c s) = P c × AllChars P s

-- The number of characters.
abbrev pub length : String → ℕ
length String.[] = 0
length (String.◌∷◌ c s) = suc (length s)

length-replace : (old : ℕ) (new : Char) (s : String) → length (replace old new s) ≡ length s
unfolding replace
length-replace old new String.[] = refl
length-replace old new (String.◌∷◌ c s) = omega (arith, length-replace old new s)

-- Every character of a text is one of the alphabet.
char_at-AllChars :
    (P : Char → Type 0) (s : String) (i : ℕ) (default : Char)
    → AllChars P s
    → P default
    → P (char_at s i default)
unfolding char_at
char_at-AllChars P String.[] i default a h = h
char_at-AllChars P (String.◌∷◌ c s) zero default a h = a.0
char_at-AllChars P (String.◌∷◌ c s) (suc i) default a h = char_at-AllChars P s i default a.1 h

code_alphabet-AllChars : AllChars (IsCodeChar true) code_alphabet
code_alphabet-AllChars = ground arith

no_confusion :
    (c : Char)
    → IsCodeChar true c
    → let o = if eqb (code c) b'0' then "O" else c in
      IsCodeChar false (if eqb (code o) b'1' then "I" else o)
no_confusion c a = elim (Bool-cases (eqb (code c) b'0')) [
  | inl z ↦ rw z (ground arith)
  | inr z ↦ rw z (elim (Bool-cases (eqb (code c) b'1')) [
    | inl o ↦ rw o (ground arith)
    | inr o ↦ rw o (ground arith)
  ])
]

-- After the replacements no "0" and no "1" is left.
replace-AllChars :
    (s : String)
    → AllChars (IsCodeChar true) s
    → AllChars (IsCodeChar false) (replace b'1' "I" (replace b'0' "O" s))
unfolding replace
replace-AllChars String.[] a = tt
replace-AllChars (String.◌∷◌ c s) a = (no_confusion c a.0, replace-AllChars s a.1)

module _ (w : World) where
  -- The text that so many draws give, from the call with a number on.
  drawn : ℕ → ℕ → String
  drawn zero k = ""
  drawn (suc n) k = String.◌∷◌ (char_at code_alphabet (w.randbelow k 36) "A") (drawn n (suc k))

  drawn-AllChars : (n k : ℕ) → AllChars (IsCodeChar true) (drawn n k)
  unfolding drawn
  drawn-AllChars zero k = tt
  drawn-AllChars (suc n) k = (
    char_at-AllChars (IsCodeChar true) code_alphabet _ "A" code_alphabet-AllChars (ground arith),
    drawn-AllChars n (suc k),
  )

  length-drawn : (n k : ℕ) → length (drawn n k) ≡ n
  unfolding drawn
  length-drawn zero k = refl
  length-drawn (suc n) k = omega (arith, length-drawn n (suc k))

  draw_code-eq-drawn :
      (n : ℕ) (s : Store)
      → draw_code w n s ≡ (ok (drawn n s.calls), record s { calls = n + s.calls })
  unfolding draw_code drawn call
  draw_code-eq-drawn zero s = ground arith
  draw_code-eq-drawn (suc n) s =
      ground (arith, draw_code-eq-drawn n (record s { calls = suc s.calls }))

  avoid_confusion_lem :
      (avoid : Bool) (text : String)
      → AllChars (IsCodeChar true) text
      → (length (avoid_confusion w avoid text) ≡ length text)
        × AllChars (IsCodeChar (not avoid)) (avoid_confusion w avoid text)
  avoid_confusion_lem true text a = (
    length-replace b'1' "I" (replace b'0' "O" text) ∙ length-replace b'0' "O" text,
    replace-AllChars text a,
  )
  avoid_confusion_lem false text a = (refl, a)

  -- A code is always generated. It has the configured number of characters, each an upper case
  -- letter or a digit, and neither "0" nor "1" where confusion is to be avoided; nothing but the
  -- number of calls changes.
  pub generate_code_lem :
      (s : Store)
      → (text : String) × (generate_code w s
          ≡ (ok text, record s { calls = w.settings.code_size + s.calls }))
        × (length text ≡ w.settings.code_size)
        × AllChars (IsCodeChar (not w.settings.code_avoid_confusion)) text
  unfolding generate_code
  generate_code_lem s =
      let size = w.settings.code_size in
      let (same, chars) =
        avoid_confusion_lem w.settings.code_avoid_confusion (drawn size s.calls)
          (drawn-AllChars size s.calls) in
      (
        avoid_confusion w w.settings.code_avoid_confusion (drawn size s.calls),
        ground (arith, draw_code-eq-drawn size s),
        same ∙ length-drawn size s.calls,
        chars,
      )

module _ {A : Type 0} (by_code : String → Action A) (draw : Action String) where
  -- A text that is not taken was looked up and not found.
  is_taken-eq-false :
      (text : String) (u t : Store) (d : Result A × Store)
      → by_code text u ≡ d
      → is_taken by_code draw text u ≡ (ok false, t)
      → (e : Error) × (d ≡ (err e, t)) × (is_not_found e ≡ true)
  unfolding is_taken
  is_taken-eq-false text u t (ok a, v) q h = absurd (ground arith)
  is_taken-eq-false text u t (err e, v) q h = (e, ground arith, ground arith)

  -- A code that `generate_unused_code` returns was looked up last, and was not found.
  pub find_unused-not_found :
      (n : ℕ) (s t : Store) (text : String)
      → find_unused by_code draw n s ≡ (ok text, t)
      → (u : Store) × (e : Error) × (by_code text u ≡ (err e, t)) × (is_not_found e ≡ true)
  unfolding find_unused
  find_unused-not_found zero s t text h = absurd (ground arith)
  find_unused-not_found (suc n) s t text h =
      let (c, u, drew, h') =
        >>=-eq-ok (λ c. is_taken by_code draw c >>= keep_or (find_unused by_code draw n) c) t text
          draw s h in
      let (taken, v, looked, h'') =
        >>=-eq-ok (keep_or (find_unused by_code draw n) c) t text (is_taken by_code draw c) u h' in
      after c taken u v looked h'' (find_unused-not_found n v t text)
    where
      after :
          (c : String) (taken : Bool) (u v : Store)
          → is_taken by_code draw c u ≡ (ok taken, v)
          → keep_or (find_unused by_code draw n) c taken v ≡ (ok text, t)
          → (find_unused by_code draw n v ≡ (ok text, t)
              → (u : Store) × (e : Error) × (by_code text u ≡ (err e, t)) × (is_not_found e ≡ true))
          → (u : Store) × (e : Error) × (by_code text u ≡ (err e, t)) × (is_not_found e ≡ true)
      after c true u v looked h' ih = ih h'
      after c false u v looked h' ih =
          let same : c ≡ text = cc in
          let there : v ≡ t = cc in
          let (e, missed, test) = is_taken-eq-false c u v (by_code c u) refl looked in
          (u, e, rw (← same, ← there) missed, test)

module _ {A : Type 0} {P : Store → Type 0} (by_code : String → Action A)
    (draw : Action String) where
  keep_or-Keeps :
      (retry : Action String) (text : String) (b : Bool)
      → Keeps P retry
      → Keeps P (keep_or retry text b)
  keep_or-Keeps retry text true k = k
  keep_or-Keeps retry text false k = Keeps-pure text

  is_taken-Keeps :
      ((text : String) → Keeps P (by_code text))
      → (text : String) → Keeps P (is_taken by_code draw text)
  unfolding is_taken
  is_taken-Keeps look text = search keeps_rules

  pub find_unused-Keeps :
      ((text : String) → Keeps P (by_code text))
      → Keeps P draw
      → (n : ℕ) → Keeps P (find_unused by_code draw n)
  unfolding find_unused
  find_unused-Keeps look drawn_keeps zero = Keeps-raise runtime_error
  find_unused-Keeps look drawn_keeps (suc n) =
      let retry = find_unused by_code draw n in
      Keeps-bind draw (λ c. is_taken by_code draw c >>= keep_or retry c) drawn_keeps
        λ c.
          Keeps-bind (is_taken by_code draw c) (keep_or retry c) (is_taken-Keeps look c)
            λ b. keep_or-Keeps retry c b (find_unused-Keeps look drawn_keeps n)
