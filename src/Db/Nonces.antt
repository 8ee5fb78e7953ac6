-- ===== src/Db/Nonces.antt =====
-- src/rasenmaeher_api/db/nonces.py: tokens that may be used once.
pub mod Laws
use python_rasenmaeher_api.Base.{
  ℕ, zero, suc, ◌+◌, ◌-◌, ◌≤◌, ◌<◌, String, ◌≡◌, refl, sym, ap, ◌∙◌, ◌≢◌, ◌↔◌, ◌⊎◌, inl, inr, Bool,
  true, false, not, ◌&&◌, ◌||◌, Option, none, some, List, [], ◌∷◌, ◌++◌, map, arith, ◌==◌, eq_iff,
  eq_refl, eqb, ltb, if◌then◌else◌, eqb_refl, Bool-cases, Option-cases, is_some, All, find_first,
  where_rows, update_rows, any,
}
use python_rasenmaeher_api.Exec.{
  Error, not_found, deleted, callsign_reserved, pool_inactive, forbidden_operation, token_reuse,
  backend_error, integrity_error, runtime_error, value_error, key_error, unbound_local_error,
  attribute_error, file_exists_error, http, Result, ok, err, is_err, is_not_found, is_value_error,
  is_http_exception, status_code, Exec, pure, raise, gets, or_raise, on_error, except_for, ◌>>=◌,
  ◌>>◌, modify, raise_if,
}
use python_rasenmaeher_api.Json.{Dict}
use python_rasenmaeher_api.Db.{SeenToken, Store, Action, World, call, checked}

abbrev pub has_token : String → SeenToken → Bool
has_token token row = row.token == token

abbrev pub token_deleted : SeenToken → Option ℕ
token_deleted row = row.deleted

-- `if not auditmeta: auditmeta = {}`
abbrev pub meta_or_empty : Option Dict → Dict
meta_or_empty none = []
meta_or_empty (some meta) = meta

unfoldable pub by_token : String → Action SeenToken
unfolding checked
by_token token = do
  found ← gets (λ s. find_first (has_token token) s.seentokens)
  checked token_deleted false found

-- The unique columns of the table.
abbrev pub token_clashes : SeenToken → SeenToken → Bool
token_clashes row other = eqb other.pk row.pk || has_token row.token other

unfoldable pub insert_token : SeenToken → Action (Unit {0})
insert_token row s =
    if any (token_clashes row) s.seentokens
    then (err integrity_error, s)
    else (ok tt, record s { seentokens = s.seentokens ++ row ∷ [] })

-- The `try` block: `NotFound` is what is hoped for.
unfoldable pub check_unseen : String → Action (Unit {0})
unfolding by_token is_not_found
check_unseen token = except_for is_not_found (do by_token token; raise token_reuse) (pure tt)

module _ (w : World) where
  unfoldable pub use_token : String → Option Dict → Action (Unit {0})
  unfolding check_unseen insert_token call
  use_token token auditmeta = do
    check_unseen token
    pk ← call w.uuid4
    insert_token
        (record { pk = pk; deleted = none; token = token; auditmeta = meta_or_empty auditmeta })

-- `SeenToken.delete`
unfoldable pub delete : SeenToken → Action Bool
delete row = raise forbidden_operation
