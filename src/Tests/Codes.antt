-- ===== src/Tests/Codes.antt =====
-- Login codes, single-use tokens and generated codes on small tables.
use python_rasenmaeher_api.Base.{
  ℕ, zero, suc, ◌+◌, ◌-◌, ◌≤◌, ◌<◌, String, ◌≡◌, refl, sym, ap, ◌∙◌, ◌≢◌, ◌↔◌, ◌⊎◌, inl, inr, Bool,
  true, false, not, ◌&&◌, ◌||◌, Option, none, some, List, [], ◌∷◌, ◌++◌, map, arith, ◌==◌, eq_iff,
  eq_refl, eqb, ltb, if◌then◌else◌, eqb_refl, Bool-cases, Option-cases, is_some, All, find_first,
  where_rows, update_rows, any,
}
use python_rasenmaeher_api.Exec.{
  Error, not_found, deleted, callsign_reserved, pool_inactive, forbidden_operation, token_reuse,
  backend_error, integrity_error, runtime_error, value_error, key_error, unbound_local_error,
  attribute_error, file_exists_error, http, Result, ok, err, is_err, is_not_found, is_value_error,
  is_http_exception, status_code, Exec, pure, raise, gets, or_raise, on_error, except_for, ◌>>=◌,
  ◌>>◌, modify, raise_if,
}
use python_rasenmaeher_api.Tests.World.{world, store, claims, payload, settings}
use python_rasenmaeher_api.Json.{Dict, str, get_flag, without_keys, lookup, mem_text}
use python_rasenmaeher_api.Db.{LoginCode, SeenToken, Store, World}
use python_rasenmaeher_api.Db.Codes
use python_rasenmaeher_api.Db.Codes.{generate_code, find_unused, draw_code}
use python_rasenmaeher_api.Db.Codes.Laws.{generate_code_lem, length, AllChars, IsCodeChar}
use python_rasenmaeher_api.Db.Nonces
use python_rasenmaeher_api.Db.LoginCodes
use python_rasenmaeher_api.Db.Nonces.{use_token, by_token}
use python_rasenmaeher_api.Db.Nonces.Laws.{use_token_once}
use python_rasenmaeher_api.Db.LoginCodes.{use_code, by_code, create_for_claims}
use python_rasenmaeher_api.Db.LoginCodes.Laws.{
  use_code_once, use_code_unknown, use_code-create_for_claims,
}
use python_rasenmaeher_api.Web.Tokens
use python_rasenmaeher_api.Web.Tokens.{exchange_token, exchange_code, token_copy_exclude_fields}
use python_rasenmaeher_api.Web.Tokens.Laws.{exchange_token_once}

abbrev used : Store
used = (use_code world "LOGIN" none store).1

use_code_once_example :
    ((row : LoginCode) × (by_code "LOGIN" store ≡ (ok row, store))
      × (row.used_on ≡ none)
      × ("jwt" ≡ world.issue 1 row.claims))
    × (use_code world "LOGIN" none used ≡ (err token_reuse, used))
unfolding python_rasenmaeher_api.Base.find_first python_rasenmaeher_api.Base.update_rows
    python_rasenmaeher_api.Db.call python_rasenmaeher_api.Db.checked
    python_rasenmaeher_api.Db.LoginCodes.by_code python_rasenmaeher_api.Db.LoginCodes.mark_used
    python_rasenmaeher_api.Db.LoginCodes.unused_row python_rasenmaeher_api.Db.LoginCodes.use_code
    python_rasenmaeher_api.Exec.is_not_found
use_code_once_example = use_code_once world "LOGIN" none none store used "jwt" refl

use_code_unknown_example :
    ((use_code world "OTHER" none store).0 ≡ err unbound_local_error)
    × (is_http_exception unbound_local_error ≡ false)
    × (status_code unbound_local_error ≡ 500)
unfolding python_rasenmaeher_api.Base.find_first python_rasenmaeher_api.Db.checked
    python_rasenmaeher_api.Db.LoginCodes.by_code
use_code_unknown_example = use_code_unknown world "OTHER" none store refl

abbrev created : Store
created = (create_for_claims world claims none store).1

use_code-create_for_claims_example : (use_code world "ABCDEFGHIJKL" none created).0 ≡ ok "jwt"
unfolding python_rasenmaeher_api.Base.any python_rasenmaeher_api.Base.find_first
    python_rasenmaeher_api.Db.call python_rasenmaeher_api.Db.checked
    python_rasenmaeher_api.Db.Codes.char_at python_rasenmaeher_api.Db.Codes.draw_code
    python_rasenmaeher_api.Db.Codes.find_unused python_rasenmaeher_api.Db.Codes.generate_unused_code
    python_rasenmaeher_api.Db.Codes.is_taken python_rasenmaeher_api.Db.LoginCodes.by_code
    python_rasenmaeher_api.Db.LoginCodes.create_for_claims
    python_rasenmaeher_api.Db.LoginCodes.insert_claims
    python_rasenmaeher_api.Db.LoginCodes.insert_code python_rasenmaeher_api.Exec.is_not_found
use_code-create_for_claims_example =
    use_code-create_for_claims world claims none none store created "ABCDEFGHIJKL" refl

abbrev seen : Store
seen = (use_token world "N1" none store).1

use_token_once_example :
    (is_err (by_token "N1" store).0 ≡ true)
    × (is_err (by_token "N1" seen).0 ≡ false)
    × (use_token world "N1" none seen ≡ (err token_reuse, seen))
unfolding python_rasenmaeher_api.Base.any python_rasenmaeher_api.Base.find_first
    python_rasenmaeher_api.Db.call python_rasenmaeher_api.Db.checked
    python_rasenmaeher_api.Db.Nonces.by_token python_rasenmaeher_api.Db.Nonces.check_unseen
    python_rasenmaeher_api.Db.Nonces.insert_token python_rasenmaeher_api.Db.Nonces.use_token
    python_rasenmaeher_api.Exec.is_not_found
use_token_once_example = use_token_once world "N1" none none store seen refl

abbrev exchanged : Store
exchanged = (exchange_token world "T" store).1

exchange_token_once_example :
    (get_flag "anon_admin_session" payload ≡ true)
    × ((n : ℕ) × ("jwt" ≡ world.issue n (without_keys token_copy_exclude_fields payload)))
    × ((exchange_token world "T" exchanged).0 ≡ err token_reuse)
    × ((exchange_token world "T" exchanged).1.seentokens ≡ exchanged.seentokens)
unfolding python_rasenmaeher_api.Base.any python_rasenmaeher_api.Base.find_first
    python_rasenmaeher_api.Db.audit python_rasenmaeher_api.Db.call python_rasenmaeher_api.Db.checked
    python_rasenmaeher_api.Db.outside python_rasenmaeher_api.Db.Nonces.by_token
    python_rasenmaeher_api.Db.Nonces.check_unseen python_rasenmaeher_api.Db.Nonces.insert_token
    python_rasenmaeher_api.Db.Nonces.use_token python_rasenmaeher_api.Exec.is_http_exception
    python_rasenmaeher_api.Exec.is_not_found python_rasenmaeher_api.Json.get_flag
    python_rasenmaeher_api.Json.lookup python_rasenmaeher_api.Json.mem_text
    python_rasenmaeher_api.Json.truthy python_rasenmaeher_api.Json.without_keys
    python_rasenmaeher_api.Web.refuse python_rasenmaeher_api.Web.Tokens.audit_http
    python_rasenmaeher_api.Web.Tokens.check_payload
    python_rasenmaeher_api.Web.Tokens.exchange_payload
    python_rasenmaeher_api.Web.Tokens.exchange_token python_rasenmaeher_api.Web.Tokens.issue_session
    python_rasenmaeher_api.Web.Tokens.use_nonce
exchange_token_once_example =
    exchange_token_once world "T" "T" store exchanged "jwt" payload refl refl refl

generate_code_lem_example :
    (text : String) × (generate_code world store
      ≡ (ok text, record store { calls = settings.code_size + store.calls }))
    × (length text ≡ settings.code_size)
    × AllChars (IsCodeChar (not settings.code_avoid_confusion)) text
generate_code_lem_example = generate_code_lem world store
