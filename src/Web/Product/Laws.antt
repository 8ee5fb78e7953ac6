-- ===== src/Web/Product/Laws.antt =====
-- A token that authorises signing is good for one certificate.
use python_rasenmaeher_api.Base.{
  refl, true, String, ◌≡◌, Option, none, some, arith, find_first, ap, inl, inr, ◌⊎◌,
}
use python_rasenmaeher_api.Exec.{
  >>=-eq-ok, http, ok, err, is_not_found, pure, ◌>>=◌, ◌>>◌, Error, Result-cases,
}
use python_rasenmaeher_api.Json.{get_flag, lookup, Dict, Json, str, null, bool, num, array, object}
use python_rasenmaeher_api.Db.Nonces.{check_unseen, insert_token, by_token, use_token, has_token}
use python_rasenmaeher_api.Db.{Action, call, outside, SeenToken, Store, World, checked}
use python_rasenmaeher_api.Web.Tokens.Laws.{token_seen}
use python_rasenmaeher_api.Web.Product.{
  return_ca_and_sign_csr, CertificatesResponse, check_token, csr_common, sign_with,
}

-- An action that has not used up a token when it raises.
abbrev RaisesUnused : {A : Type 0} → Action A → Type 0
RaisesUnused m = (s : Store) (e : Error) → (m s).0 ≡ err e → (m s).1.seentokens ≡ s.seentokens

RaisesUnused-bind :
    {A B : Type 0} (m : Action A) (f : A → Action B)
    → ((s : Store) → (m s).1.seentokens ≡ s.seentokens)
    → ((a : A) → RaisesUnused (f a))
    → RaisesUnused (m >>= f)
RaisesUnused-bind m f kept later s e h = elim (Result-cases (m s).0) [
  | inl (a, done) ↦ let k = kept s in let l = later a (m s).1 e (ground arith) in ground arith
  | inr (x, failed) ↦ let k = kept s in ground arith
]

module _ (w : World) where
  token_used :
      (nonce csr : String) (s t : Store) (r : CertificatesResponse)
      → sign_with w (some (str nonce)) csr s ≡ (ok r, t)
      → (u : Store) × (use_token w nonce none u ≡ (ok tt, t))
  unfolding sign_with
  token_used nonce csr s t r h =
      let (_, u, _, h1) =
        >>=-eq-ok (λ _. csr_common w csr >>= λ resp. use_token w nonce none >> pure resp) t r
          (check_token nonce) s h in
      let (resp, v, _, h2) =
        >>=-eq-ok (λ resp. use_token w nonce none >> pure resp) t r (csr_common w csr) u h1 in
      (v, ground arith)

  token_refused :
      (nonce csr : String) (t : Store) (row : SeenToken)
      → find_first (has_token nonce) t.seentokens ≡ some row
      → row.deleted ≡ none
      → sign_with w (some (str nonce)) csr t ≡ (err (http 403), t)
  unfolding sign_with check_token by_token checked is_not_found
  token_refused nonce csr t row found live = ground arith

  sign_again :
      (nonce : Option Json) (csr again : String) (s t : Store) (r : CertificatesResponse)
      → sign_with w nonce csr s ≡ (ok r, t)
      → sign_with w nonce again t ≡ (err (http 403), t)
  unfolding sign_with
  sign_again (some (str nonce)) csr again s t r h =
      let (u, used) = token_used nonce csr s t r h in
      let (row, found, live) = token_seen w nonce u t used in
      token_refused nonce again t row found live
  sign_again none csr again s t r h = absurd (ground arith)
  sign_again (some null) csr again s t r h = absurd (ground arith)
  sign_again (some (bool _)) csr again s t r h = absurd (ground arith)
  sign_again (some (num _)) csr again s t r h = absurd (ground arith)
  sign_again (some (array _)) csr again s t r h = absurd (ground arith)
  sign_again (some (object _)) csr again s t r h = absurd (ground arith)

  seentokens-check_token : (nonce : String) (s : Store) → (check_token nonce s).1 ≡ s
  unfolding check_token by_token checked is_not_found
  seentokens-check_token nonce s = ground arith

  seentokens-csr_common :
      (csr : String) (s : Store) → (csr_common w csr s).1.seentokens ≡ s.seentokens
  unfolding csr_common outside
  seentokens-csr_common csr s = ground arith

  -- A use that is refused writes nothing.
  seentokens-use_token :
      (nonce : String) (s : Store) (e : Error)
      → (use_token w nonce none s).0 ≡ err e
      → (use_token w nonce none s).1.seentokens ≡ s.seentokens
  unfolding use_token check_unseen insert_token call
  seentokens-use_token nonce s e h = ground arith

  RaisesUnused-sign_with :
      (nonce : Option Json) (csr : String) → RaisesUnused (sign_with w nonce csr)
  unfolding sign_with
  RaisesUnused-sign_with (some (str nonce)) csr =
      RaisesUnused-bind (check_token nonce)
        (λ _. csr_common w csr >>= λ resp. use_token w nonce none >> pure resp)
        (λ s. ap (λ (r : Store). r.seentokens) (seentokens-check_token nonce s))
        λ _.
          RaisesUnused-bind (csr_common w csr) (λ resp. use_token w nonce none >> pure resp)
            (seentokens-csr_common csr)
            λ resp s e h. elim (Result-cases (use_token w nonce none s).0) [
              | inl (a, done) ↦ absurd (ground arith)
              | inr (x, failed) ↦ let k = seentokens-use_token nonce s x failed in ground arith
            ]
  RaisesUnused-sign_with none csr = λ s e h. refl
  RaisesUnused-sign_with (some null) csr = λ s e h. refl
  RaisesUnused-sign_with (some (bool _)) csr = λ s e h. refl
  RaisesUnused-sign_with (some (num _)) csr = λ s e h. refl
  RaisesUnused-sign_with (some (array _)) csr = λ s e h. refl
  RaisesUnused-sign_with (some (object _)) csr = λ s e h. refl

  raised_unused : (jwt : Dict) (csr : String) → RaisesUnused (return_ca_and_sign_csr w jwt csr)
  unfolding return_ca_and_sign_csr
  raised_unused jwt csr s e h =
      let k = RaisesUnused-sign_with (lookup "nonce" jwt) csr s e in ground arith

  returned_once :
      (jwt : Dict) (csr again : String) (s t : Store) (r : CertificatesResponse)
      → return_ca_and_sign_csr w jwt csr s ≡ (ok r, t)
      → (get_flag "csr" jwt ≡ true) × (return_ca_and_sign_csr w jwt again t ≡ (err (http 403), t))
  unfolding return_ca_and_sign_csr
  returned_once jwt csr again s t r h =
      let signed : sign_with w (lookup "nonce" jwt) csr s ≡ (ok r, t) = ground arith in
      (ground arith, ground (arith, sign_again (lookup "nonce" jwt) csr again s t r signed))

  -- However a request to sign with the claims of a token ends: if the endpoint returns its response,
  -- the claims had `csr`, and the same claims are refused afterwards, for any request, with status
  -- 403 and no change; if it raises, the table of used tokens is as it was, also where the
  -- certificate had been signed and only a later step failed.
  pub sign_csr_once :
      (jwt : Dict) (csr again : String) (s : Store)
      → ((r : CertificatesResponse) × (t : Store) × (return_ca_and_sign_csr w jwt csr s ≡ (ok r, t))
          × (get_flag "csr" jwt ≡ true)
          × (return_ca_and_sign_csr w jwt again t ≡ (err (http 403), t)))
        ⊎ ((e : Error) × (t : Store) × (return_ca_and_sign_csr w jwt csr s ≡ (err e, t))
            × (t.seentokens ≡ s.seentokens))
  sign_csr_once jwt csr again s = elim (Result-cases (return_ca_and_sign_csr w jwt csr s).0) [
    | inl (r, done) ↦
        let t = (return_ca_and_sign_csr w jwt csr s).1 in
        let run : return_ca_and_sign_csr w jwt csr s ≡ (ok r, t) = ap (λ x. (x, t)) done in
        let (had, again_refused) = returned_once jwt csr again s t r run in
        inl (r, t, run, had, again_refused)
    | inr (e, failed) ↦
        let t = (return_ca_and_sign_csr w jwt csr s).1 in
        inr (e, t, ap (λ x. (x, t)) failed, raised_unused jwt csr s e failed)
  ]
