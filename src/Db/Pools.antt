-- ===== src/Db/Pools.antt =====
-- `EnrollmentPool` of src/rasenmaeher_api/db/enrollments.py: invite codes.
pub mod Laws
use python_rasenmaeher_api.Base.{
  ℕ, zero, suc, ◌+◌, ◌-◌, ◌≤◌, ◌<◌, String, ◌≡◌, refl, sym, ap, ◌∙◌, ◌≢◌, ◌↔◌, ◌⊎◌, inl, inr, Bool,
  true, false, not, ◌&&◌, ◌||◌, Option, none, some, List, [], ◌∷◌, ◌++◌, map, arith, ◌==◌, eq_iff,
  eq_refl, eqb, ltb, if◌then◌else◌, eqb_refl, Bool-cases, Option-cases, is_some, All, find_first,
  where_rows, update_rows, any,
}
use python_rasenmaeher_api.Exec.{
  Error, not_found, deleted, callsign_reserved, pool_inactive, forbidden_operation, token_reuse,
  backend_error, integrity_error, runtime_error, value_error, key_error, unbound_local_error,
  attribute_error, file_exists_error, http, Result, ok, err, is_err, is_not_found, is_value_error,
  is_http_exception, status_code, Exec, pure, raise, gets, or_raise, on_error, except_for, ◌>>=◌,
  ◌>>◌, modify, raise_if,
}
use python_rasenmaeher_api.Json.{Dict}
use python_rasenmaeher_api.Db.{
  Person, Enrollment, EnrollmentPool, Store, Action, World, call, checked,
}
use python_rasenmaeher_api.Db.Codes.{generate_code, generate_unused_code}
use python_rasenmaeher_api.Db.Enrollments.{create_for_callsign}

abbrev pub pool_deleted : EnrollmentPool → Option ℕ
pool_deleted p = p.deleted

abbrev pub pool_pk : ℕ → EnrollmentPool → Bool
pool_pk pk p = eqb p.pk pk

abbrev pub has_invitecode : String → EnrollmentPool → Bool
has_invitecode code p = p.invitecode == code

-- The unique columns of the table.
abbrev pub pool_clashes : EnrollmentPool → EnrollmentPool → Bool
pool_clashes row other = pool_pk row.pk other || has_invitecode row.invitecode other

unfoldable pub insert_pool : EnrollmentPool → Action (Unit {0})
insert_pool row s =
    if any (pool_clashes row) s.pools
    then (err integrity_error, s)
    else (ok tt, record s { pools = s.pools ++ row ∷ [] })

abbrev pub update_pool : ℕ → (EnrollmentPool → EnrollmentPool) → Action (Unit {0})
update_pool pk g = modify (λ s. record s { pools = update_rows (pool_pk pk) g s.pools })

unfoldable pub by_pk : ℕ → Bool → Action EnrollmentPool
unfolding checked
by_pk pk allow_deleted = do
  found ← gets (λ s. find_first (pool_pk pk) s.pools)
  checked pool_deleted allow_deleted found

unfoldable pub by_invitecode : String → Bool → Action EnrollmentPool
unfolding checked
by_invitecode invitecode allow_deleted = do
  found ← gets (λ s. find_first (has_invitecode invitecode) s.pools)
  checked pool_deleted allow_deleted found

unfoldable pub set_active : EnrollmentPool → Bool → Action EnrollmentPool
set_active pool state = do
  update_pool pool.pk (λ p. record p { active = state })
  pure (record pool { active = state })

-- `EnrollmentPool.list`
abbrev pub is_listed : Option ℕ → Bool → EnrollmentPool → Bool
is_listed owner include_deleted p =
    (elim owner [ none ↦ true | some pk ↦ eqb p.owner pk ])
    && (include_deleted || not (is_some p.deleted))

unfoldable pub list : Option ℕ → Bool → Action (List EnrollmentPool)
list by_owner include_deleted = gets (λ s. where_rows (is_listed by_owner include_deleted) s.pools)

abbrev pub lookup_invitecode : String → Action EnrollmentPool
lookup_invitecode code = by_invitecode code false

abbrev pub new_pool : ℕ → ℕ → ℕ → Option Dict → String → EnrollmentPool
new_pool pk now owner extra code = record {
  pk = pk;
  created = now;
  deleted = none;
  owner = owner;
  active = true;
  extra = extra;
  invitecode = code;
}

module _ (w : World) where
  unfoldable pub by_pk_or_invitecode : String → Bool → Action EnrollmentPool
  unfolding by_pk by_invitecode is_value_error
  by_pk_or_invitecode inval allow_deleted =
      except_for is_value_error
        (do pk ← or_raise value_error (w.parse_uuid inval); by_pk pk allow_deleted)
        (by_invitecode inval allow_deleted)

  unfoldable pub create_enrollment : EnrollmentPool → String → Option String → Action Enrollment
  create_enrollment pool callsign csr = do
    raise_if (not pool.active) pool_inactive
    raise_if (is_some pool.deleted) deleted
    create_for_callsign w callsign (some pool.pk) pool.extra csr

  -- The end of `create_for_owner`, with a code that is not in use.
  unfoldable pub insert_owned : Person → Option Dict → String → Action EnrollmentPool
  insert_owned person extra code = do
    pk ← call w.uuid4
    now ← call w.utcnow
    insert_pool (new_pool pk now person.pk extra code)
    pure (new_pool pk now person.pk extra code)

  unfoldable pub create_for_owner : Person → Option Dict → Action EnrollmentPool
  create_for_owner person extra = do
    code ← generate_unused_code lookup_invitecode (generate_code w)
    insert_owned person extra code

  unfoldable pub reset_invitecode : EnrollmentPool → Action String
  reset_invitecode pool = do
    code ← generate_unused_code lookup_invitecode (generate_code w)
    taken ← gets (λ s. any (λ p. not (pool_pk pool.pk p) && has_invitecode code p) s.pools)
    raise_if taken integrity_error
    update_pool pool.pk (λ p. record p { invitecode = code })
    pure code

  -- `ORMBaseModel.delete`
  unfoldable pub delete : EnrollmentPool → Action Bool
  unfolding call
  delete pool = do
    now ← call w.utcnow
    update_pool pool.pk (λ p. record p { deleted = some now })
    pure true
