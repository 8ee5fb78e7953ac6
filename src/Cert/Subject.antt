-- ===== src/Cert/Subject.antt =====
-- What the check of a certificate request's subject lets pass.
use Prim.Native.Char.{code}
use Prim.Native.Nat.{compare as compare_ℕ, Ordering}
use Prim.Native.String.append
use Prim.Native.String.find
use text.Mathlib.Text.{is_le, when}
use Prim.Native.String.{String, [], ◌∷◌, ◌++◌, begins, find, same, len}
use python_rasenmaeher_api.Base.{ℕ, zero, ◌≡◌, ◌∙◌, ap, refl, true, some, is_some, arith}
use python_rasenmaeher_api.Exec.{ok}
use python_rasenmaeher_api.Db.{World}
use python_rasenmaeher_api.Cert.{verify_csr, contains_text}

compare_refl : (n : ℕ) → compare_ℕ n n ≡ Ordering.eq
compare_refl n = ground arith

begins-append : (t v : String) (y n : ℕ) → begins (t ++ v) t y n ≡ y
begins-append [] v y n = refl
begins-append (c ∷ t) v y n =
    ap (λ u. begins u (c ∷ t) y n) (append.cons c t v)
    ∙ ap (λ o. same o (begins (t ++ v) t y n) n) (compare_refl (code c))
    ∙ begins-append t v y n

find_begin : (s t : String) → ((y n : ℕ) → begins s t y n ≡ y) → find s t ≡ zero
find_begin [] t h = find.nil t ∙ h 0 1
find_begin (c ∷ s) t h = find.cons c s t ∙ h 0 _

within : (n : ℕ) → is_some (when (is_le (compare_ℕ 0 n)) zero) ≡ true
within n = ground arith

contains_text-append : (t v : String) → contains_text (t ++ v) t ≡ true
contains_text-append t v = rw (find_begin (t ++ v) t (begins-append t v)) (within (len (t ++ v)))

module _ (w : World) where
  -- A request passes for a callsign whenever its subject begins with "CN=" and the callsign,
  -- whatever follows: also for a longer name.
  pub verify_csr_prefix :
      (csr callsign rest : String)
      → w.csr_subject csr ≡ some (("CN=" ++ callsign) ++ rest)
      → verify_csr w csr callsign ≡ ok true
  unfolding verify_csr
  verify_csr_prefix csr callsign rest h =
      ground (arith, contains_text-append ("CN=" ++ callsign) rest)
