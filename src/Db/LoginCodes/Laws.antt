-- ===== src/Db/LoginCodes/Laws.antt =====
-- A login code is exchanged once, for a token with the claims it was made for.
use python_rasenmaeher_api.Base.{
  ℕ, suc, String, ◌≡◌, refl, inl, inr, true, false, Option, none, some, List, [], ◌∷◌, ◌++◌, arith,
  eq_refl, eqb_refl, Bool-cases, Option-cases, find_first, update_rows, any,
}
use python_rasenmaeher_api.Exec.{
  >>=-eq-ok, token_reuse, unbound_local_error, ok, err, is_err, is_http_exception, status_code,
}
use python_rasenmaeher_api.Json.{Dict}
use python_rasenmaeher_api.Db.{Store, World, LoginCode}
use python_rasenmaeher_api.Db.LoginCodes.{
  new_code, code_char_count, insert_claims, create_for_claims, by_code, code_pk, use_code, has_code,
  code_clashes,
}
use python_rasenmaeher_api.Db.Nonces.{meta_or_empty}
use python_rasenmaeher_api.Db.Codes.{draw_code, generate_unused_code}

-- A row without a used code.
find_first-inserted :
    (row : LoginCode) (rows : List LoginCode)
    → any (code_clashes row) rows ≡ false
    → find_first (has_code row.code) (rows ++ row ∷ []) ≡ some row
unfolding find_first any
find_first-inserted row [] h = ground (arith, eq_refl row.code)
find_first-inserted row (r ∷ rs) h = ground (arith, find_first-inserted row rs)

-- The mark on the row that a search by code finds.
find_first-used :
    (code : String) (now : ℕ) (meta : Dict) (rows : List LoginCode) (row : LoginCode)
    → find_first (has_code code) rows ≡ some row
    → find_first
        (has_code code)
        (update_rows (code_pk row.pk) (λ r. record r { used_on = some now; auditmeta = meta }) rows)
      ≡ some (record row { used_on = some now; auditmeta = meta })
unfolding find_first update_rows
find_first-used code now meta [] row h = ground arith
find_first-used code now meta (r ∷ rs) row h = elim (Bool-cases (has_code code r)) [
  | inl fits ↦ ground (arith, eqb_refl row.pk)
  | inr other ↦ ground (arith, find_first-used code now meta rs row)
]

module _ (w : World) where
  -- When `use_code` returns, there was a live row with the code that was not used, the token is
  -- issued for its claims, and using the code again raises `TokenReuse` and changes nothing.
  pub use_code_once :
      (code : String) (meta meta' : Option Dict) (s t : Store) (jwt : String)
      → use_code w code meta s ≡ (ok jwt, t)
      → ((row : LoginCode) × (by_code code s ≡ (ok row, s))
          × (row.used_on ≡ none)
          × (jwt ≡ w.issue (suc s.calls) row.claims))
        × (use_code w code meta' t ≡ (err token_reuse, t))
  unfolding use_code
  use_code_once code meta meta' s t jwt h =
      elim (Option-cases (find_first (has_code code) s.logincodes)) [
        | inl missing ↦ absurd (ground arith)
        | inr (row, found) ↦
            let later =
              find_first-used code (w.utcnow s.calls) (meta_or_empty meta) s.logincodes row found in
            ((row, ground arith, ground arith, ground arith), ground (arith, later))
      ]

  -- A code that is not in the table is no HTTP error but an `UnboundLocalError`, with status 500.
  pub use_code_unknown :
      (code : String) (meta : Option Dict) (s : Store)
      → is_err (by_code code s).0 ≡ true
      → ((use_code w code meta s).0 ≡ err unbound_local_error)
        × (is_http_exception unbound_local_error ≡ false)
        × (status_code unbound_local_error ≡ 500)
  unfolding use_code is_http_exception status_code
  use_code_unknown code meta s h = (ground arith, refl, refl)

  -- A code that was created can be used: the token is issued for the claims.
  pub use_code-create_for_claims :
      (claims : Dict) (meta meta' : Option Dict) (s t : Store) (code : String)
      → create_for_claims w claims meta s ≡ (ok code, t)
      → (use_code w code meta' t).0 ≡ ok (w.issue (suc t.calls) claims)
  unfolding use_code create_for_claims
  use_code-create_for_claims claims meta meta' s t code h =
      let (c, u, drew, h') =
        >>=-eq-ok (insert_claims w claims meta) t code
          (generate_unused_code by_code (draw_code w code_char_count)) s h in
      let row = new_code claims meta c (w.uuid4 u.calls) in
      ground (arith, find_first-inserted row u.logincodes)
