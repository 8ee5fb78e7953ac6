-- ===== src/Startup/Database.antt =====
-- `DBWrapper.create_engine` and `DBWrapper.app_startup_event` of src/rasenmaeher_api/db/middleware.py:
-- the database is tried until it answers or the limit of retries is met. `engine` and `init` say
-- how the attempt of a number goes.
pub mod Laws
use python_rasenmaeher_api.Base.{
  ℕ, zero, suc, ◌+◌, ◌-◌, ◌≤◌, ◌<◌, String, ◌≡◌, refl, sym, ap, ◌∙◌, ◌≢◌, ◌↔◌, ◌⊎◌, inl, inr, Bool,
  true, false, not, ◌&&◌, ◌||◌, Option, none, some, List, [], ◌∷◌, ◌++◌, map, arith, ◌==◌, eq_iff,
  eq_refl, eqb, ltb, if◌then◌else◌, eqb_refl, Bool-cases, Option-cases, is_some, All, find_first,
  where_rows, update_rows, any,
}
use python_rasenmaeher_api.Exec.{
  Error, not_found, deleted, callsign_reserved, pool_inactive, forbidden_operation, token_reuse,
  backend_error, integrity_error, runtime_error, value_error, key_error, unbound_local_error,
  attribute_error, file_exists_error, http, Result, ok, err, is_err, is_not_found, is_value_error,
  is_http_exception, status_code, Exec, pure, raise, gets, or_raise, on_error, except_for, ◌>>=◌,
  ◌>>◌, modify, raise_if,
}

pub record DbWrapper : Type 0 where
  pub init_db : Bool
  pub retry_limit : ℕ

-- `EngineWrapper.singleton()` and `init_db()`
pub record Database : Type 0 where
  pub engine : ℕ → Result (Unit {0})
  pub init : ℕ → Result (Unit {0})

unfoldable pub create_engine : DbWrapper → Database → ℕ → Result (Unit {0})
create_engine wrapper db attempt = elim (db.engine attempt) [
  | err e ↦ err e
  | ok _ ↦ if wrapper.init_db then db.init attempt else ok tt
]

-- What follows an attempt: it went well, it is made again while retries are left, or it raises.
abbrev pub after_attempt :
    Result (Unit {0}) → Bool → ℕ → Option (Result (Unit {0}) × ℕ) → Option (Result (Unit {0}) × ℕ)
after_attempt (ok _) again retries rest = some (ok tt, retries)
after_attempt (err e) true retries rest = rest
after_attempt (err e) false retries rest = some (err e, retries)

-- The rounds of `while True`, with the number of attempts made so far; the outcome comes with the
-- number of attempts. `none` is a run that is not over when the fuel is used up.
unfoldable pub attempts : (ℕ → Result (Unit {0})) → ℕ → ℕ → ℕ → Option (Result (Unit {0}) × ℕ)
attempts try_once limit zero retries = none
attempts try_once limit (suc fuel) retries =
    let rest = attempts try_once limit fuel (retries + 1) in
    after_attempt (try_once (retries + 1)) (ltb (retries + 1) limit) (retries + 1) rest

unfoldable pub app_startup_event : DbWrapper → Database → Option (Result (Unit {0}) × ℕ)
unfolding attempts
app_startup_event wrapper db =
    attempts (create_engine wrapper db) wrapper.retry_limit (wrapper.retry_limit + 1) 0
