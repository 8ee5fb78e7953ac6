-- ===== src/Db/LoginCodes.antt =====
-- src/rasenmaeher_api/db/logincodes.py: codes that are exchanged for a session JWT, once.
pub mod Laws
use python_rasenmaeher_api.Base.{
  ℕ, zero, suc, ◌+◌, ◌-◌, ◌≤◌, ◌<◌, String, ◌≡◌, refl, sym, ap, ◌∙◌, ◌≢◌, ◌↔◌, ◌⊎◌, inl, inr, Bool,
  true, false, not, ◌&&◌, ◌||◌, Option, none, some, List, [], ◌∷◌, ◌++◌, map, arith, ◌==◌, eq_iff,
  eq_refl, eqb, ltb, if◌then◌else◌, eqb_refl, Bool-cases, Option-cases, is_some, All, find_first,
  where_rows, update_rows, any,
}
use python_rasenmaeher_api.Exec.{
  Error, not_found, deleted, callsign_reserved, pool_inactive, forbidden_operation, token_reuse,
  backend_error, integrity_error, runtime_error, value_error, key_error, unbound_local_error,
  attribute_error, file_exists_error, http, Result, ok, err, is_err, is_not_found, is_value_error,
  is_http_exception, status_code, Exec, pure, raise, gets, or_raise, on_error, except_for, ◌>>=◌,
  ◌>>◌, modify, raise_if,
}
use python_rasenmaeher_api.Json.{Dict}
use python_rasenmaeher_api.Db.{LoginCode, Store, Action, World, call, checked}
use python_rasenmaeher_api.Db.Codes.{draw_code, generate_unused_code}
use python_rasenmaeher_api.Db.Nonces.{meta_or_empty}

-- `CODE_CHAR_COUNT`
abbrev pub code_char_count : ℕ
code_char_count = 12

abbrev pub has_code : String → LoginCode → Bool
has_code code row = row.code == code

abbrev pub code_deleted : LoginCode → Option ℕ
code_deleted row = row.deleted

abbrev pub code_pk : ℕ → LoginCode → Bool
code_pk pk row = eqb row.pk pk

unfoldable pub by_code : String → Action LoginCode
unfolding checked
by_code code = do
  found ← gets (λ s. find_first (has_code code) s.logincodes)
  checked code_deleted false found

abbrev pub code_clashes : LoginCode → LoginCode → Bool
code_clashes row other = code_pk row.pk other || has_code row.code other

unfoldable pub insert_code : LoginCode → Action (Unit {0})
insert_code row s =
    if any (code_clashes row) s.logincodes
    then (err integrity_error, s)
    else (ok tt, record s { logincodes = s.logincodes ++ row ∷ [] })

-- The body of the `try` block: the variable `obj` is bound only if nothing is raised.
unfoldable pub unused_row : String → Action (Option LoginCode)
unfolding by_code
unused_row code = do obj ← by_code code; raise_if (is_some obj.used_on) token_reuse; pure (some obj)

abbrev pub new_code : Dict → Option Dict → String → ℕ → LoginCode
new_code claims auditmeta code pk = record {
  pk = pk;
  deleted = none;
  code = code;
  auditmeta = meta_or_empty auditmeta;
  used_on = none;
  claims = claims;
}

module _ (w : World) where
  -- `obj.used_on = now`, and so on; without a bound `obj` this is an `UnboundLocalError`.
  unfoldable pub mark_used : Dict → ℕ → Option LoginCode → Action String
  unfolding call
  mark_used auditmeta now none = raise unbound_local_error
  mark_used auditmeta now (some obj) = do
    modify (λ s. record s {
      logincodes =
          update_rows (code_pk obj.pk)
            (λ row. record row { used_on = some now; auditmeta = auditmeta }) s.logincodes;
    })
    call (λ n. w.issue n obj.claims)

  unfoldable pub use_code : String → Option Dict → Action String
  unfolding unused_row is_not_found call mark_used
  use_code code auditmeta = do
    obj ← except_for is_not_found (unused_row code) (pure none)
    now ← call w.utcnow
    mark_used (meta_or_empty auditmeta) now obj

  -- What follows the loop of `create_for_claims`.
  unfoldable pub insert_claims : Dict → Option Dict → String → Action String
  unfolding call insert_code
  insert_claims claims auditmeta code = do
    pk ← call w.uuid4
    insert_code (new_code claims auditmeta code pk)
    pure code

  unfoldable pub create_for_claims : Dict → Option Dict → Action String
  unfolding insert_claims
  create_for_claims claims auditmeta = do
    code ← generate_unused_code by_code (draw_code w code_char_count)
    insert_claims claims auditmeta code

-- `LoginCode.delete`
unfoldable pub delete : LoginCode → Action Bool
delete row = raise forbidden_operation
