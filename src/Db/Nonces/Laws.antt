-- ===== src/Db/Nonces/Laws.antt =====
-- A token is used once.
use python_rasenmaeher_api.Base.{
  String, ◌≡◌, true, false, Option, none, some, List, [], ◌∷◌, ◌++◌, arith, eq_refl, find_first,
  any,
}
use python_rasenmaeher_api.Exec.{token_reuse, ok, err, is_err}
use python_rasenmaeher_api.Json.{Dict}
use python_rasenmaeher_api.Db.{Store, World, SeenToken}
use python_rasenmaeher_api.Db.Nonces.{meta_or_empty, by_token, has_token, use_token, token_clashes}

-- A row that no other clashes with is found by its token, once it was inserted.
find_first-inserted :
    (row : SeenToken) (rows : List SeenToken)
    → any (token_clashes row) rows ≡ false
    → find_first (has_token row.token) (rows ++ row ∷ []) ≡ some row
unfolding find_first any
find_first-inserted row [] h = ground (arith, eq_refl row.token)
find_first-inserted row (r ∷ rs) h = ground (arith, find_first-inserted row rs)

module _ (w : World) where
  -- When `use_token` returns, the token was not in the table, or only in a deleted row, and it is
  -- afterwards; a second use of the same token raises `TokenReuse` and changes nothing, whatever
  -- the audit data.
  pub use_token_once :
      (token : String) (meta meta' : Option Dict) (s t : Store)
      → use_token w token meta s ≡ (ok tt, t)
      → (is_err (by_token token s).0 ≡ true)
        × (is_err (by_token token t).0 ≡ false)
        × (use_token w token meta' t ≡ (err token_reuse, t))
  unfolding use_token
  use_token_once token meta meta' s t h =
      let row : SeenToken = record {
        pk = w.uuid4 s.calls;
        deleted = none;
        token = token;
        auditmeta = meta_or_empty meta;
      } in
      let later = find_first-inserted row s.seentokens in
      (ground arith, ground (arith, later), ground (arith, later))
