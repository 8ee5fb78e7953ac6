-- ===== src/Startup/Database/Laws.antt =====
-- The start-up ends: within the limit of retries the database answers, or its last failure is raised.
use python_rasenmaeher_api.Base.{
  ℕ, zero, suc, ◌+◌, ◌≤◌, ◌<◌, ◌≡◌, refl, ap, ◌⊎◌, inl, inr, Bool, true, false, Option, some, arith,
  eqb, ltb, Bool-cases,
}
use python_rasenmaeher_api.Exec.{Result, ok, err, is_err}
use python_rasenmaeher_api.Startup.Database.{
  after_attempt, DbWrapper, Database, create_engine, attempts, app_startup_event,
}

-- What a finished run says about the attempts that it made after the first `made` of them.
pub record Ended (try_once : ℕ → Result (Unit {0})) (limit made : ℕ)
    (run : Option (Result (Unit {0}) × ℕ)) : Type 0 where
  pub outcome : Result (Unit {0})
  pub last : ℕ
  pub ended : run ≡ some (outcome, last)
  pub is_last : try_once last ≡ outcome
  pub made_one : made < last
  pub within : ((last ≤ limit) ⊎ (last ≡ made + 1))
  pub earlier : (n : ℕ) → made < n → n < last → is_err (try_once n) ≡ true
  pub gave_up : (is_err outcome ≡ false) ⊎ (limit ≤ last)

module _ (try_once : ℕ → Result (Unit {0})) (limit made : ℕ) where
  -- The loop stops at this attempt.
  stop :
      (r : Result (Unit {0}))
      → try_once (made + 1) ≡ r
      → (is_err r ≡ false) ⊎ (limit ≤ made + 1)
      → Ended try_once limit made (some (r, made + 1))
  stop r e give_up = record {
    outcome = r;
    last = made + 1;
    ended = refl;
    is_last = e;
    made_one = omega arith;
    within = inr refl;
    earlier = λ n l h. absurd (omega arith);
    gave_up = give_up;
  }

  -- The loop goes on after an attempt that failed.
  go_on :
      (run : Option (Result (Unit {0}) × ℕ))
      → is_err (try_once (made + 1)) ≡ true
      → made + 1 < limit
      → Ended try_once limit (made + 1) run
      → Ended try_once limit made run
  go_on run failed again r = record {
    outcome = r.outcome;
    last = r.last;
    ended = r.ended;
    is_last = r.is_last;
    made_one = let h = r.made_one in omega arith;
    within = elim r.within [ inl h ↦ inl h | inr h ↦ inl (omega arith) ];
    earlier = λ n l h. elim (Bool-cases (eqb n (made + 1))) [
      | inl e ↦ ground (arith, failed)
      | inr e ↦ r.earlier n (ground arith) h
    ];
    gave_up = r.gave_up;
  }

  after_attempt-Ended :
      (r : Result (Unit {0})) (again : Bool) (rest : Option (Result (Unit {0}) × ℕ))
      → try_once (made + 1) ≡ r
      → ltb (made + 1) limit ≡ again
      → (again ≡ true → Ended try_once limit (made + 1) rest)
      → Ended try_once limit made (after_attempt r again (made + 1) rest)
  after_attempt-Ended (ok u) again rest e l h = stop (ok tt) e (inl refl)
  after_attempt-Ended (err x) true rest e l h = go_on rest (ap is_err e) (ground arith) (h refl)
  after_attempt-Ended (err x) false rest e l h = stop (err x) e (inr (ground arith))

attempts-Ended :
    (try_once : ℕ → Result (Unit {0})) (limit fuel made : ℕ)
    → limit < made + fuel
    → made < limit ⊎ (0 < fuel)
    → Ended try_once limit made (attempts try_once limit fuel made)
unfolding attempts
attempts-Ended try_once limit zero made enough some_fuel = absurd (ground arith)
attempts-Ended try_once limit (suc fuel) made enough some_fuel =
    after_attempt-Ended try_once limit made _ _ _ refl refl
      λ again. attempts-Ended try_once limit fuel (made + 1) (omega arith) (inl (ground arith))

-- Whatever the database does, the start-up ends. Its outcome is that of the last attempt, which is
-- among the first `retry_limit` ones or the very first; every earlier attempt failed; and it raises
-- only when `retry_limit` attempts were made.
pub app_startup_event-Ended :
    (wrapper : DbWrapper) (db : Database)
    → Ended (create_engine wrapper db) wrapper.retry_limit 0 (app_startup_event wrapper db)
unfolding app_startup_event
app_startup_event-Ended wrapper db =
    attempts-Ended (create_engine wrapper db) wrapper.retry_limit (wrapper.retry_limit + 1) 0
      (omega arith) (inr (omega arith))
