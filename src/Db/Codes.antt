-- ===== src/Db/Codes.antt =====
-- Random codes: `generate_code` and the loops of `_generate_unused_code` of
-- src/rasenmaeher_api/db/enrollments.py, and the loop of `create_for_claims` of
-- src/rasenmaeher_api/db/logincodes.py.
pub mod Laws
use Prim.Native.Char.{Char, code}
use Prim.Native.String
use python_rasenmaeher_api.Base.{
  ℕ, zero, suc, ◌+◌, ◌-◌, ◌≤◌, ◌<◌, String, ◌≡◌, refl, sym, ap, ◌∙◌, ◌≢◌, ◌↔◌, ◌⊎◌, inl, inr, Bool,
  true, false, not, ◌&&◌, ◌||◌, Option, none, some, List, [], ◌∷◌, ◌++◌, map, arith, ◌==◌, eq_iff,
  eq_refl, eqb, ltb, if◌then◌else◌, eqb_refl, Bool-cases, Option-cases, is_some, All, find_first,
  where_rows, update_rows, any,
}
use python_rasenmaeher_api.Exec.{
  Error, not_found, deleted, callsign_reserved, pool_inactive, forbidden_operation, token_reuse,
  backend_error, integrity_error, runtime_error, value_error, key_error, unbound_local_error,
  attribute_error, file_exists_error, http, Result, ok, err, is_err, is_not_found, is_value_error,
  is_http_exception, status_code, Exec, pure, raise, gets, or_raise, on_error, except_for, ◌>>=◌,
  ◌>>◌, modify, raise_if,
}
use python_rasenmaeher_api.Db.{Action, World, call}

-- `string.ascii_uppercase + string.digits`
abbrev pub code_alphabet : String
code_alphabet = "ABCDEFGHIJKLMNOPQRSTUVWXYZ0123456789"

-- `CODE_MAX_ATTEMPTS`; the loop raises after the attempt with the next number.
abbrev pub code_max_attempts : ℕ
code_max_attempts = 100

-- The character at an index; the default is for an index past the end, which is never drawn.
unfoldable pub char_at : String → ℕ → Char → Char
char_at String.[] i default = default
char_at (String.◌∷◌ c s) zero default = c
char_at (String.◌∷◌ c s) (suc i) default = char_at s i default

-- `text.replace(old, new)` for single characters
unfoldable pub replace : ℕ → Char → String → String
replace old new String.[] = ""
replace old new (String.◌∷◌ c s) =
    String.◌∷◌ (if eqb (code c) old then new else c) (replace old new s)

abbrev pub prepend : Char → Action String → Action String
prepend c draw = do rest ← draw; pure (String.◌∷◌ c rest)

module _ (w : World) where
  -- So many draws of `secrets.choice(CODE_ALPHABET)`.
  unfoldable pub draw_code : ℕ → Action String
  unfolding call char_at
  draw_code zero = pure ""
  draw_code (suc n) = do
    i ← call (λ k. w.randbelow k 36)
    prepend (char_at code_alphabet i "A") (draw_code n)

  abbrev avoid_confusion : Bool → String → String
  avoid_confusion true text = replace b'1' "I" (replace b'0' "O" text)
  avoid_confusion false text = text

  unfoldable pub generate_code : Action String
  unfolding draw_code replace
  generate_code = do
    text ← draw_code w.settings.code_size
    pure (avoid_confusion w.settings.code_avoid_confusion text)

-- A code that is not taken is kept.
abbrev pub keep_or : Action String → String → Bool → Action String
keep_or retry text false = pure text
keep_or retry text true = retry

-- The `while True` loop, with the number of attempts that are left: draw a code until the lookup
-- raises `NotFound`.
module _ {A : Type 0} (by_code : String → Action A) (draw : Action String) where
  unfoldable pub is_taken : String → Action Bool
  unfolding is_not_found
  is_taken text = except_for is_not_found (do by_code text; pure true) (pure false)

  unfoldable pub find_unused : ℕ → Action String
  unfolding is_taken
  find_unused zero = raise runtime_error
  find_unused (suc n) = do text ← draw; taken ← is_taken text; keep_or (find_unused n) text taken

  unfoldable pub generate_unused_code : Action String
  unfolding find_unused
  generate_unused_code = find_unused (suc code_max_attempts)
