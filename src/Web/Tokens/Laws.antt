-- ===== src/Web/Tokens/Laws.antt =====
-- A single-use token and a login code are exchanged once, and what is issued has the claims.
use python_rasenmaeher_api.Base.{
  ℕ, suc, String, ◌≡◌, refl, ap, ◌∙◌, inl, inr, true, false, none, some, List, [], ◌∷◌, arith, ◌==◌,
  eq_iff, if◌then◌else◌, Bool-cases, Option-cases, is_some, find_first,
}
use python_rasenmaeher_api.Exec.{token_reuse, ok, err, is_http_exception}
use python_rasenmaeher_api.Json.{
  null, object, array, num, bool, Dict, Json, str, lookup, get_flag, without_keys, mem_text,
}
use python_rasenmaeher_api.Db.{LoginCode, SeenToken, Store, World}
use python_rasenmaeher_api.Db.Nonces.{has_token, by_token, use_token}
use python_rasenmaeher_api.Db.Nonces.Laws.{use_token_once}
use python_rasenmaeher_api.Db.LoginCodes.{has_code, use_code}
use python_rasenmaeher_api.Db.LoginCodes.Laws.{use_code_once}
use python_rasenmaeher_api.Web.{refuse}
use python_rasenmaeher_api.Web.Tokens.{
  exchange_token, check_payload, exchange_payload, use_nonce, issue_session, audit_http,
  token_copy_exclude_fields, exchange_code, exchange_given,
}

-- Copying the claims drops the excluded ones and keeps each of the others.
pub lookup-without_keys :
    (excluded : List String) (k : String) (d : Dict)
    → lookup k (without_keys excluded d) ≡ (if mem_text k excluded then none else lookup k d)
unfolding lookup without_keys
lookup-without_keys excluded k [] = ground arith
lookup-without_keys excluded k ((j, v) ∷ d) =
    ground (arith, eq_iff j k, lookup-without_keys excluded k d)

module _ (w : World) where
  pub token_seen :
      (token : String) (s t : Store)
      → use_token w token none s ≡ (ok tt, t)
      → (row : SeenToken) × (find_first (has_token token) t.seentokens ≡ some row)
        × (row.deleted ≡ none)
  unfolding by_token
  token_seen token s t h =
      let (_, seen, _) = use_token_once w token none none s t h in
      elim (Option-cases (find_first (has_token token) t.seentokens)) [
        | inl missing ↦ absurd (ground arith)
        | inr (row, found) ↦ (row, found, ground arith)
      ]

  token_refused :
      (token : String) (u : Store) (row : SeenToken)
      → find_first (has_token token) u.seentokens ≡ some row
      → row.deleted ≡ none
      → use_token w token none u ≡ (err token_reuse, u)
  unfolding use_token
  token_refused token u row found live = ground arith

  -- What a successful exchange has done with the nonce.
  abbrev pub IsUsed : Dict → Json → Store → Store → String → Type 0
  IsUsed payload nonce s t jwt =
      (get_flag "anon_admin_session" payload ≡ true)
      × (text : String) × (u : Store) × (nonce ≡ str text)
      × (use_token w text none s ≡ (ok tt, u))
      × (t.seentokens ≡ u.seentokens)
      × (jwt ≡ w.issue u.calls (without_keys token_copy_exclude_fields payload))

  exchange_text-ok :
      (payload : Dict) (text jwt : String) (s t : Store)
      → exchange_payload w payload (str text) s ≡ (ok jwt, t)
      → IsUsed payload (str text) s t jwt
  unfolding exchange_payload use_nonce audit_http refuse issue_session
  exchange_text-ok payload text jwt s t h =
      elim (Bool-cases (get_flag "anon_admin_session" payload)) [
        | inl flag ↦ (
          flag,
          text,
          (use_token w text none s).1,
          refl,
          ground arith,
          ground arith,
          ground arith,
        )
        | inr other ↦ absurd (ground arith)
      ]

  exchange_payload-ok :
      (payload : Dict) (nonce : Json) (jwt : String) (s t : Store)
      → exchange_payload w payload nonce s ≡ (ok jwt, t)
      → IsUsed payload nonce s t jwt
  unfolding exchange_payload use_nonce
  exchange_payload-ok payload (str text) jwt s t h = exchange_text-ok payload text jwt s t h
  exchange_payload-ok payload null jwt s t h = absurd (ground arith)
  exchange_payload-ok payload (bool _) jwt s t h = absurd (ground arith)
  exchange_payload-ok payload (num _) jwt s t h = absurd (ground arith)
  exchange_payload-ok payload (array _) jwt s t h = absurd (ground arith)
  exchange_payload-ok payload (object _) jwt s t h = absurd (ground arith)

  check_payload-ok :
      (payload : Dict) (jwt : String) (s t : Store)
      → check_payload w payload s ≡ (ok jwt, t)
      → (nonce : Json) × (lookup "nonce" payload ≡ some nonce) × IsUsed payload nonce s t jwt
  unfolding check_payload refuse
  check_payload-ok [] jwt s t h = absurd (ground arith)
  check_payload-ok (entry ∷ entries) jwt s t h =
      elim (Option-cases (lookup "nonce" (entry ∷ entries))) [
        | inl missing ↦ absurd (ground arith)
        | inr (nonce, given) ↦
            (nonce, given, exchange_payload-ok (entry ∷ entries) nonce jwt s t (ground arith))
      ]

  payload_refused :
      (payload : Dict) (text : String) (row : SeenToken) (u : Store)
      → lookup "nonce" payload ≡ some (str text)
      → find_first (has_token text) u.seentokens ≡ some row
      → row.deleted ≡ none
      → ((check_payload w payload u).0 ≡ err token_reuse)
        × ((check_payload w payload u).1.seentokens ≡ u.seentokens)
  unfolding check_payload exchange_payload use_nonce audit_http refuse is_http_exception lookup
  payload_refused [] text row u given found live = absurd (ground arith)
  payload_refused (entry ∷ entries) text row u given found live =
      let refused = token_refused text u row found live in
      (ground (arith, refused), ground (arith, refused))

  -- When `exchange_token` returns, the payload had the claim `anon_admin_session`, the session
  -- token is issued for its claims without the excluded ones, and a second exchange of a token
  -- with that payload raises `TokenReuse` and leaves the table of used tokens as it is.
  pub exchange_token_once :
      (token again : String) (s t : Store) (jwt : String) (payload : Dict)
      → w.decode s.calls token ≡ ok payload
      → w.decode t.calls again ≡ ok payload
      → exchange_token w token s ≡ (ok jwt, t)
      → (get_flag "anon_admin_session" payload ≡ true)
        × ((n : ℕ) × (jwt ≡ w.issue n (without_keys token_copy_exclude_fields payload)))
        × ((exchange_token w again t).0 ≡ err token_reuse)
        × ((exchange_token w again t).1.seentokens ≡ t.seentokens)
  unfolding exchange_token
  exchange_token_once token again s t jwt payload h1 h2 h =
      let (nonce, has, done) =
        check_payload-ok payload jwt (record s { calls = suc s.calls }) t (ground arith) in
      let (flag, text, u, is_text, used, same, issued) = done in
      let (row, found, live) = token_seen text (record s { calls = suc s.calls }) u used in
      let (refused, kept) =
        payload_refused payload text row (record t { calls = suc t.calls }) (has ∙ ap some is_text)
          (ap (find_first (has_token text)) same ∙ found) live in
      (flag, (u.calls, issued), ground (arith, refused), ground (arith, kept))

  code_used :
      (code : String) (t : Store)
      → use_code w code none t ≡ (err token_reuse, t)
      → (row : LoginCode) × (find_first (has_code code) t.logincodes ≡ some row)
        × (row.deleted ≡ none)
        × (is_some row.used_on ≡ true)
  unfolding use_code
  code_used code t h = elim (Option-cases (find_first (has_code code) t.logincodes)) [
    | inl missing ↦ absurd (ground arith)
    | inr (row, found) ↦ (row, found, ground arith, ground arith)
  ]

  code_refused :
      (code : String) (u : Store) (row : LoginCode)
      → find_first (has_code code) u.logincodes ≡ some row
      → row.deleted ≡ none
      → is_some row.used_on ≡ true
      → use_code w code none u ≡ (err token_reuse, u)
  unfolding use_code
  code_refused code u row found live used = ground arith

  exchange_code-ok :
      (code jwt : String) (s t : Store)
      → exchange_code w code s ≡ (ok jwt, t)
      → ((code == "") ≡ false)
        × (u : Store) × (use_code w code none s ≡ (ok jwt, u))
        × (t.logincodes ≡ u.logincodes)
  unfolding exchange_code exchange_given refuse audit_http
  exchange_code-ok code jwt s t h =
      (ground arith, (use_code w code none s).1, ground arith, ground arith)

  given_refused :
      (code : String) (t : Store)
      → (code == "") ≡ false
      → use_code w code none t ≡ (err token_reuse, t)
      → ((exchange_code w code t).0 ≡ err token_reuse)
        × ((exchange_code w code t).1.logincodes ≡ t.logincodes)
  unfolding exchange_code exchange_given refuse audit_http is_http_exception
  given_refused code t full h = (ground arith, ground arith)

  -- A login code that was exchanged is refused afterwards with `TokenReuse`, and the table of
  -- login codes is left as it is.
  pub exchange_code_once :
      (code : String) (s t : Store) (jwt : String)
      → exchange_code w code s ≡ (ok jwt, t)
      → ((exchange_code w code t).0 ≡ err token_reuse)
        × ((exchange_code w code t).1.logincodes ≡ t.logincodes)
  unfolding exchange_code
  exchange_code_once code s t jwt h =
      let (full, u, used, same) = exchange_code-ok code jwt s t h in
      let (_, again) = use_code_once w code none none s u jwt used in
      let (row, found, live, marked) = code_used code u again in
      given_refused code t full
        (code_refused code t row (ap (find_first (has_code code)) same ∙ found) live marked)
