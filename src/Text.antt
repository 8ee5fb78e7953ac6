-- ===== src/Text.antt =====
-- Python's text operations on the native `String`: `len`, `strip`, `replace` of one character by
-- nothing, slicing to a length, and splitting at the first separator.
pub mod Laws
use Prim.Native.Char.{Char, code}
use Prim.Native.String
use python_rasenmaeher_api.Base.{
  ℕ, zero, suc, ◌+◌, ◌-◌, ◌≤◌, ◌<◌, String, ◌≡◌, refl, sym, ap, ◌∙◌, ◌≢◌, ◌↔◌, ◌⊎◌, inl, inr, Bool,
  true, false, not, ◌&&◌, ◌||◌, Option, none, some, List, [], ◌∷◌, ◌++◌, map, arith, ◌==◌, eq_iff,
  eq_refl, eqb, ltb, if◌then◌else◌, eqb_refl, Bool-cases, Option-cases, is_some, All, find_first,
  where_rows, update_rows, any,
}

unfoldable pub length : String → ℕ
length String.[] = 0
length (String.◌∷◌ c s) = length s + 1

between : ℕ → ℕ → ℕ → Bool
between a b n = not (ltb n a) && not (ltb b n)

-- `str.isspace` of a code point
unfoldable pub is_space : ℕ → Bool
unfolding between
is_space n =
    between 9 13 n
    || between 28 32 n
    || eqb n 0x85
    || eqb n 0xa0
    || eqb n 0x1680
    || between 0x2000 0x200a n
    || between 0x2028 0x2029 n
    || eqb n 0x202f
    || eqb n 0x205f
    || eqb n 0x3000

unfoldable pub lstrip : String → String
lstrip String.[] = String.[]
lstrip (String.◌∷◌ c s) = if is_space (code c) then lstrip s else String.◌∷◌ c s

-- A space is kept if a character that is no space follows.
unfoldable pub keep_space : Char → String → String
keep_space c String.[] = if is_space (code c) then String.[] else String.◌∷◌ c String.[]
keep_space c (String.◌∷◌ d s) = String.◌∷◌ c (String.◌∷◌ d s)

unfoldable pub rstrip : String → String
unfolding keep_space
rstrip String.[] = String.[]
rstrip (String.◌∷◌ c s) = keep_space c (rstrip s)

unfoldable pub strip : String → String
unfolding lstrip rstrip
strip s = rstrip (lstrip s)

-- `s.replace(chr(n), "")`
unfoldable pub remove_char : ℕ → String → String
remove_char n String.[] = String.[]
remove_char n (String.◌∷◌ c s) =
    if eqb (code c) n then remove_char n s else String.◌∷◌ c (remove_char n s)

-- `s[:n]`
unfoldable pub take : ℕ → String → String
take zero s = String.[]
take (suc n) String.[] = String.[]
take (suc n) (String.◌∷◌ c s) = String.◌∷◌ c (take n s)

-- `s.split(chr(n), maxsplit=1)[0]`
unfoldable pub before_char : ℕ → String → String
before_char n String.[] = String.[]
before_char n (String.◌∷◌ c s) =
    if eqb (code c) n then String.[] else String.◌∷◌ c (before_char n s)

-- `s.lower()`, as code points, for texts that are compared with ASCII words
lower_code : ℕ → ℕ
lower_code n = if between 65 90 n then n + 32 else n

unfoldable pub codes : String → List ℕ
codes String.[] = []
codes (String.◌∷◌ c s) = code c ∷ codes s

unfoldable pub lower_codes : String → List ℕ
unfolding lower_code between
lower_codes String.[] = []
lower_codes (String.◌∷◌ c s) = lower_code (code c) ∷ lower_codes s

unfoldable pub same_codes : List ℕ → List ℕ → Bool
same_codes [] [] = true
same_codes (m ∷ ms) (n ∷ ns) = eqb m n && same_codes ms ns
same_codes _ _ = false

-- `sep.join(parts)`
unfoldable pub join : String → List String → String
join sep [] = ""
join sep (p ∷ []) = p
join sep (p ∷ q ∷ ps) = String.◌++◌ p (String.◌++◌ sep (join sep (q ∷ ps)))

-- `text.replace("\n", "\\n")`
unfoldable pub escape_newlines : String → String
escape_newlines String.[] = ""
escape_newlines (String.◌∷◌ c s) =
    let rest = escape_newlines s in
    if eqb (code c) 10 then String.◌++◌ "\\n" rest else String.◌∷◌ c rest

-- `text.replace("\\n", "\n")`: a backslash is 92 and an `n` is 110.
unfoldable pub unescape_newlines : String → String
unescape_newlines String.[] = ""
unescape_newlines (String.◌∷◌ c String.[]) = String.◌∷◌ c String.[]
unescape_newlines (String.◌∷◌ c (String.◌∷◌ d s)) =
    let skipped = unescape_newlines s in
    let kept = unescape_newlines (String.◌∷◌ d s) in
    if eqb (code c) 92 && eqb (code d) 110 then String.◌++◌ "\n" skipped else String.◌∷◌ c kept

-- `s.endswith(suffix)` and `s[: -len(suffix)]`: the text without the suffix, if it ends with it.
unfoldable pub strip_suffix : String → String → Option String
strip_suffix suffix String.[] = if String.[] == suffix then some "" else none
strip_suffix suffix (String.◌∷◌ c s) =
    let shorter = strip_suffix suffix s in
    if String.◌∷◌ c s == suffix
    then some ""
    else elim shorter [ none ↦ none | some t ↦ some (String.◌∷◌ c t) ]
