-- ===== src/Db/Pools/Laws.antt =====
-- An invite code after its pool was switched, deleted or created.
use python_rasenmaeher_api.Base.{
  find_first-update_other, suc, String, ◌≡◌, refl, ap, Bool, true, false, Option, none, some, List,
  [], ◌∷◌, ◌++◌, arith, ◌==◌, eq_refl, eqb_refl, find_first, update_rows, any,
}
use python_rasenmaeher_api.Exec.{>>=-eq-ok, deleted, ok, err}
use python_rasenmaeher_api.Json.{Dict}
use python_rasenmaeher_api.Db.{EnrollmentPool, Person, Store, World, checked, call}
use python_rasenmaeher_api.Db.Codes.{generate_code, generate_unused_code}
use python_rasenmaeher_api.Db.Pools.{
  insert_owned, by_invitecode, set_active, delete, create_for_owner, has_invitecode, pool_pk,
  pool_clashes, lookup_invitecode, insert_pool, new_pool,
}

-- Inversion of a search.
pub by_invitecode-ok :
    (code : String) (s t : Store) (pool : EnrollmentPool)
    → by_invitecode code false s ≡ (ok pool, t)
    → (t ≡ s) × (find_first (has_invitecode code) s.pools ≡ some pool) × (pool.deleted ≡ none)
unfolding by_invitecode checked
by_invitecode-ok code s t pool h = (ground arith, ground arith, ground arith)

find_first-set :
    (code : String) (pool : EnrollmentPool) (g : EnrollmentPool → EnrollmentPool)
    (pools : List EnrollmentPool)
    → ((p : EnrollmentPool) → (g p).invitecode ≡ p.invitecode)
    → find_first (has_invitecode code) pools ≡ some pool
    → find_first (has_invitecode code) (update_rows (pool_pk pool.pk) g pools) ≡ some (g pool)
find_first-set code pool g pools keeps h =
    find_first-update_other (has_invitecode code) (pool_pk pool.pk) g pools pool
      (λ p. ap (λ c. c == code) (keeps p)) h (eqb_refl pool.pk)

-- After `set_active` the code finds the same pool with the new state.
pub by_invitecode-set_active :
    (code : String) (s : Store) (pool : EnrollmentPool) (state : Bool)
    → by_invitecode code false s ≡ (ok pool, s)
    → by_invitecode code false (set_active pool state s).1
      ≡ (ok (record pool { active = state }), (set_active pool state s).1)
unfolding set_active by_invitecode checked
by_invitecode-set_active code s pool state h =
    ground (arith, find_first-set code pool (λ p. record p { active = state }) s.pools (λ p. refl))

module _ (w : World) where
  -- After `delete` the code is refused as deleted.
  pub by_invitecode-delete :
      (code : String) (s : Store) (pool : EnrollmentPool)
      → by_invitecode code false s ≡ (ok pool, s)
      → by_invitecode code false (delete w pool s).1 ≡ (err deleted, (delete w pool s).1)
  unfolding delete by_invitecode checked
  by_invitecode-delete code s pool h = ground (
    arith,
    find_first-set code pool (λ p. record p { deleted = some (w.utcnow s.calls) }) s.pools
        (λ p. refl),
  )

  find_first-inserted :
      (row : EnrollmentPool) (rows : List EnrollmentPool)
      → any (pool_clashes row) rows ≡ false
      → find_first (has_invitecode row.invitecode) (rows ++ row ∷ []) ≡ some row
  unfolding find_first any
  find_first-inserted row [] h = ground (arith, eq_refl row.invitecode)
  find_first-inserted row (r ∷ rs) h = ground (arith, find_first-inserted row rs)

  -- A pool that was created is active, belongs to its owner and is found by its code.
  pub by_invitecode-create_for_owner :
      (person : Person) (extra : Option Dict) (s t : Store) (pool : EnrollmentPool)
      → create_for_owner w person extra s ≡ (ok pool, t)
      → (by_invitecode pool.invitecode false t ≡ (ok pool, t))
        × (pool.active ≡ true)
        × (pool.owner ≡ person.pk)
  unfolding create_for_owner insert_owned by_invitecode checked insert_pool call
  by_invitecode-create_for_owner person extra s t pool h =
      let (code, u, drew, h') =
        >>=-eq-ok (insert_owned w person extra) t pool
          (generate_unused_code lookup_invitecode (generate_code w)) s h in
      let row = new_pool (w.uuid4 u.calls) (w.utcnow (suc u.calls)) person.pk extra code in
      (ground (arith, find_first-inserted row u.pools), ground arith, ground arith)
