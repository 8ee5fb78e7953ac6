-- ===== src/Cert/CertManager/Names.antt =====
-- The names of resources that are made for callsigns are names that Kubernetes takes.
use Prim.Native.Char.{Char, code}
use Prim.Native.String
use Prim.Native.String.append
use python_rasenmaeher_api.Base.{
  ℕ, zero, suc, ◌+◌, ◌≤◌, String, ◌≡◌, refl, inl, inr, Bool, true, false, List, [], ◌∷◌, arith,
  ◌==◌, eqb, Bool-cases,
}
use python_rasenmaeher_api.Text.{length, take, join}
use python_rasenmaeher_api.Text.Laws.{length-take, length-append, if_keeps}
use python_rasenmaeher_api.Cert.CertManager.{
  is_name_code, slugify, lstrip_minus, rstrip_minus, keep_minus, given_texts, slug_of, cr_name,
}

-- Every character is one of "[a-z0-9-]".
abbrev pub AreNameCodes : String → Type 0
AreNameCodes String.[] = Unit
AreNameCodes (String.◌∷◌ c s) = (is_name_code (code c) ≡ true) × AreNameCodes s

AreNameCodes-append :
    (s t : String) → AreNameCodes s → AreNameCodes t → AreNameCodes (String.◌++◌ s t)
AreNameCodes-append String.[] t hs ht = rw (append.nil t) ht
AreNameCodes-append (String.◌∷◌ c s) t hs ht =
    rw (append.cons c s t) (hs.0, AreNameCodes-append s t hs.1 ht)

minus : AreNameCodes "-"
unfolding is_name_code
minus = (refl, tt)

slugify-AreNameCodes : (s : String) → AreNameCodes (slugify s)
unfolding slugify
slugify-AreNameCodes String.[] = tt
slugify-AreNameCodes (String.◌∷◌ c s) =
    let rest = slugify-AreNameCodes s in
    elim (Bool-cases (is_name_code (code c))) [
      | inl e ↦ rw e (e, rest)
      | inr e ↦ rw e (AreNameCodes-append "-" (slugify s) minus rest)
    ]

lstrip_minus-AreNameCodes : (s : String) → AreNameCodes s → AreNameCodes (lstrip_minus s)
unfolding lstrip_minus
lstrip_minus-AreNameCodes String.[] h = tt
lstrip_minus-AreNameCodes (String.◌∷◌ c s) h =
    if_keeps AreNameCodes (eqb (code c) 45) (lstrip_minus s) (String.◌∷◌ c s)
      (lstrip_minus-AreNameCodes s h.1) h

keep_minus-AreNameCodes :
    (c : Char) (s : String)
    → is_name_code (code c) ≡ true
    → AreNameCodes s
    → AreNameCodes (keep_minus c s)
unfolding keep_minus
keep_minus-AreNameCodes c String.[] e h =
    if_keeps AreNameCodes (eqb (code c) 45) "" (String.◌∷◌ c "") tt (e, tt)
keep_minus-AreNameCodes c (String.◌∷◌ d s) e h = (e, h)

rstrip_minus-AreNameCodes : (s : String) → AreNameCodes s → AreNameCodes (rstrip_minus s)
unfolding rstrip_minus
rstrip_minus-AreNameCodes String.[] h = tt
rstrip_minus-AreNameCodes (String.◌∷◌ c s) h =
    keep_minus-AreNameCodes c (rstrip_minus s) h.0 (rstrip_minus-AreNameCodes s h.1)

take-AreNameCodes : (n : ℕ) (s : String) → AreNameCodes s → AreNameCodes (take n s)
unfolding take
take-AreNameCodes zero s h = tt
take-AreNameCodes (suc n) String.[] h = tt
take-AreNameCodes (suc n) (String.◌∷◌ c s) h = (h.0, take-AreNameCodes n s h.1)

-- A name of at most a number of characters.
pub record IsName (n : ℕ) (s : String) : Type 0 where
  pub allowed : AreNameCodes s
  pub short : length s ≤ n

IsName-prefix :
    (m n k : ℕ) (s t : String)
    → m + n + 1 ≤ k
    → IsName m s
    → IsName n t
    → IsName k (String.◌++◌ s (String.◌++◌ "-" t))
unfolding length
IsName-prefix m n k s t e hs ht = record {
  allowed = AreNameCodes-append s _ hs.allowed (AreNameCodes-append "-" t minus ht.allowed);
  short =
      let a = length-append s (String.◌++◌ "-" t) in
      let b = length-append "-" t in let c = hs.short in let d = ht.short in omega arith;
}

-- What follows the prefix "rm", where a part that is empty is left out.
abbrev rest_of : Bool → Bool → String → String → List String
rest_of true true slug digest = []
rest_of true false slug digest = digest ∷ []
rest_of false true slug digest = slug ∷ []
rest_of false false slug digest = slug ∷ digest ∷ []

given-rest :
    (slug digest : String)
    → given_texts ("rm" ∷ slug ∷ digest ∷ [])
      ≡ "rm" ∷ rest_of (slug == "") (digest == "") slug digest
unfolding given_texts
given-rest slug digest = elim (Bool-cases (slug == "")) [
  | inl a ↦ elim (Bool-cases (digest == "")) [ inl b ↦ rw (a, b) refl | inr b ↦ rw (a, b) refl ]
  | inr a ↦ elim (Bool-cases (digest == "")) [ inl b ↦ rw (a, b) refl | inr b ↦ rw (a, b) refl ]
]

IsName-le : (m n : ℕ) (s : String) → m ≤ n → IsName m s → IsName n s
IsName-le m n s e h = record { allowed = h.allowed; short = let a = h.short in omega arith }

joined :
    (a b : Bool) (slug digest : String)
    → IsName 40 slug
    → IsName 10 digest
    → IsName 54 (join "-" ("rm" ∷ rest_of a b slug digest))
unfolding join length is_name_code
joined a b slug digest hs hd = by_cases a b
  where
    rm : IsName 2 "rm"
    rm = record { allowed = (refl, (refl, tt)); short = omega arith }

    by_cases : (a b : Bool) → IsName 54 (join "-" ("rm" ∷ rest_of a b slug digest))
    by_cases true true = IsName-le 2 54 "rm" (omega arith) rm
    by_cases true false = IsName-prefix 2 10 54 "rm" digest (omega arith) rm hd
    by_cases false true = IsName-prefix 2 40 54 "rm" slug (omega arith) rm hs
    by_cases false false =
        IsName-prefix 2 51 54 "rm" _ (omega arith) rm
          (IsName-prefix 40 10 51 slug digest (omega arith) hs hd)

-- Whatever characters a callsign has, the name of its resource has only lower case letters, digits
-- and minus signs, and at most 54 characters, if the hash is written in such characters.
pub cr_name-IsName :
    (lower hexdigest : String → String) (callsign : String)
    → AreNameCodes (hexdigest callsign)
    → IsName 54 (cr_name lower hexdigest callsign)
unfolding cr_name slug_of
cr_name-IsName lower hexdigest callsign h =
    let s = rstrip_minus (lstrip_minus (slugify (lower callsign))) in
    let slug : IsName 40 (take 40 s) = record {
      allowed = take-AreNameCodes 40 s (
          rstrip_minus-AreNameCodes _
            (lstrip_minus-AreNameCodes _ (slugify-AreNameCodes (lower callsign))));
      short = length-take 40 s;
    } in
    let digest : IsName 10 (take 10 (hexdigest callsign)) = record {
      allowed = take-AreNameCodes 10 (hexdigest callsign) h;
      short = length-take 10 (hexdigest callsign);
    } in
    rw (given-rest (take 40 s) (take 10 (hexdigest callsign))) (joined _ _ _ _ slug digest)
