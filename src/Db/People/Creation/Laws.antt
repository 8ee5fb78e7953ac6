-- ===== src/Db/People/Creation/Laws.antt =====
-- What `create_with_cert` leaves behind, on success and on failure.
use python_rasenmaeher_api.Base.{
  some, update_rows-append, where_rows-not-append, find_first_of_any, eqb_refl, suc, eq_iff, ◌==◌,
  any, ℕ, String, ◌≡◌, refl, true, false, Option, none, List, [], ◌∷◌, ◌++◌, arith, find_first,
}
use python_rasenmaeher_api.Exec.{Error, ok, err, backend_error, is_not_found, is_err}
use python_rasenmaeher_api.Json.{mem_text, Dict}
use python_rasenmaeher_api.Db.{call, outside, Person, Store, World}
use python_rasenmaeher_api.Cert.{verify_csr}
use python_rasenmaeher_api.Db.People.{
  text_or_none, no_files, owned_by, clashes, has_pk, insert, remove_directory, make_directory,
  by_callsign, same_callsign,
}
use python_rasenmaeher_api.Db.People.Creation.{
  obtain_csr, save_and_sign, check_csr, check_service_names, check_callsign_free, create_rows,
  create_with_cert,
}
use python_rasenmaeher_api.Settings.{valid_product_cns}

module _ (w : World) where
  -- While the callsign finds a person who is not deleted, no other person gets it: the call
  -- raises, and changes nothing.
  pub create_with_cert_taken :
      (callsign : String) (extra : Option Dict) (csrpem : Option String) (s : Store) (p : Person)
      → by_callsign w callsign false s ≡ (ok p, s)
      → (is_err (create_with_cert w callsign extra csrpem s).0 ≡ true)
        × ((create_with_cert w callsign extra csrpem s).1 ≡ s)
  unfolding create_with_cert check_csr check_service_names check_callsign_free is_not_found
  create_with_cert_taken callsign extra csrpem s p h = ground arith

  -- A row that the case-blind search does not meet has no callsign of that spelling either.
  insert_fits :
      (callsign : String) (pk : ℕ) (ps : List Person)
      → find_first (same_callsign w callsign) ps ≡ none
      → any (has_pk pk) ps ≡ false
      → any (clashes pk callsign) ps ≡ false
  unfolding find_first any
  insert_fits callsign pk [] h k = refl
  insert_fits callsign pk (p ∷ ps) h k = ground (
    arith,
    eq_iff p.callsign callsign,
    eq_iff (w.lower p.callsign) (w.lower callsign),
    insert_fits callsign pk ps,
  )

  abbrev pub new_person : String → Option Dict → Store → Person
  new_person callsign extra s = record {
    pk = w.uuid4 s.calls;
    callsign = callsign;
    extra = extra;
    deleted = none;
    revoke_reason = none;
  }

  check_service_names_ok :
      (callsign : String) (s : Store) (cns : List String)
      → valid_product_cns w.settings ≡ ok cns
      → mem_text callsign cns ≡ false
      → (callsign == w.settings.mtls_client_cert_cn) ≡ false
      → check_service_names w callsign s ≡ (ok tt, s)
  unfolding check_service_names
  check_service_names_ok callsign s cns h1 h2 h3 = rw (h1, h2, h3)

  check_callsign_free_new :
      (callsign : String) (s : Store)
      → find_first (same_callsign w callsign) s.persons ≡ none
      → check_callsign_free w callsign s ≡ (ok tt, s)
  unfolding check_callsign_free by_callsign is_not_found
  check_callsign_free_new callsign s h = ground arith

  make_directory_new :
      (pk : ℕ) (s : Store)
      → any (owned_by pk) s.files ≡ false
      → make_directory pk s ≡ (ok tt, record s { files = s.files ++ no_files pk ∷ [] })
  unfolding make_directory
  make_directory_new pk s h = rw (find_first_of_any (owned_by pk) s.files h) refl

  insert_new :
      (p : Person) (s : Store)
      → any (clashes p.pk p.callsign) s.persons ≡ false
      → insert p s ≡ (ok tt, record s { persons = s.persons ++ p ∷ [] })
  unfolding insert
  insert_new p s h = rw h refl

  -- The request that is signed: the one that was given and matches the callsign, or the one that is
  -- made for a fresh key pair, with the number of calls of the world before.
  abbrev pub IsRequest : Option String → String → ℕ → String → Type 0
  IsRequest (some csrpem) callsign calls csr =
      (csr ≡ csrpem) × ((csrpem == "") ≡ false) × (verify_csr w csrpem callsign ≡ ok true)
  IsRequest none callsign calls csr = w.create_csr calls callsign ≡ ok csr

  abbrev pub calls_after : Option String → ℕ → ℕ
  calls_after (some csrpem) calls = calls
  calls_after none calls = suc calls

  IsRequest-given :
      (csrpem : Option String) (callsign csr : String) (calls : ℕ)
      → IsRequest csrpem callsign calls csr
      → text_or_none csrpem ≡ csrpem
  IsRequest-given none callsign csr calls h = refl
  IsRequest-given (some csrpem) callsign csr calls (same, given, matches) = rw given refl

  check_csr_ok :
      (csrpem : Option String) (callsign csr : String) (calls : ℕ) (s : Store)
      → IsRequest csrpem callsign calls csr
      → check_csr w csrpem callsign s ≡ (ok tt, s)
  unfolding check_csr
  check_csr_ok none callsign csr calls s h = refl
  check_csr_ok (some csrpem) callsign csr calls s (same, given, matches) = rw matches refl

  -- A failure of the certificate backend, after the row was committed.
  create_rows_orphan :
      (p : Person) (s : Store) (csrpem : Option String) (csr : String) (e : Error)
      → any (clashes p.pk p.callsign) s.persons ≡ false
      → any (owned_by p.pk) s.files ≡ false
      → IsRequest csrpem p.callsign s.calls csr
      → w.sign_csr (calls_after csrpem s.calls) csr ≡ err e
      → create_rows w p csrpem s ≡ (
        err backend_error,
        record s { persons = s.persons ++ p ∷ []; calls = suc (calls_after csrpem s.calls) },
      )
  unfolding create_rows save_and_sign obtain_csr remove_directory outside
  create_rows_orphan p s none csr e h1 h2 h3 h4 = ground (
    arith,
    make_directory_new p.pk s h2,
    insert_new p (record s { files = s.files ++ no_files p.pk ∷ [] }) h1,
    update_rows-append (owned_by p.pk) (λ f. record f { csr = some csr; key = true }) s.files
        (no_files p.pk) h2 (eqb_refl p.pk),
    where_rows-not-append (owned_by p.pk) s.files
        (record (no_files p.pk) { csr = some csr; key = true }) h2 (eqb_refl p.pk),
  )
  create_rows_orphan p s (some csrpem) csr e h1 h2 (same, _, _) h4 = ground (
    arith,
    make_directory_new p.pk s h2,
    insert_new p (record s { files = s.files ++ no_files p.pk ∷ [] }) h1,
    update_rows-append (owned_by p.pk) (λ f. record f { csr = some csrpem }) s.files (no_files p.pk)
        h2 (eqb_refl p.pk),
    where_rows-not-append (owned_by p.pk) s.files (record (no_files p.pk) { csr = some csrpem }) h2
        (eqb_refl p.pk),
  )

  -- For a callsign that nobody has and that is no service's name, with a readable manifest and a
  -- fresh key of the row: when there is a request, given and for the callsign or made for a fresh
  -- key pair, and the certificate backend fails to sign it, the call raises `BackendError`, and the
  -- row of the person stays in the table, live, while the directory with the files is gone.
  pub create_with_cert_orphan :
      (callsign : String) (extra : Option Dict) (csrpem : Option String) (s : Store)
      (cns : List String) (csr : String) (e : Error)
      → valid_product_cns w.settings ≡ ok cns
      → mem_text callsign cns ≡ false
      → (callsign == w.settings.mtls_client_cert_cn) ≡ false
      → find_first (same_callsign w callsign) s.persons ≡ none
      → any (has_pk (w.uuid4 s.calls)) s.persons ≡ false
      → any (owned_by (w.uuid4 s.calls)) s.files ≡ false
      → IsRequest csrpem callsign (suc s.calls) csr
      → w.sign_csr (calls_after csrpem (suc s.calls)) csr ≡ err e
      → create_with_cert w callsign extra csrpem s ≡ (
        err backend_error,
        record s {
          persons = s.persons ++ new_person callsign extra s ∷ [];
          calls = suc (calls_after csrpem (suc s.calls));
        },
      )
  unfolding create_with_cert call
  create_with_cert_orphan callsign extra csrpem s cns csr e h1 h2 h3 h4 h5 h6 h7 h8 =
      let given = IsRequest-given csrpem callsign csr (suc s.calls) h7 in
      let matches = check_csr_ok csrpem callsign csr (suc s.calls) s h7 in
      let names = check_service_names_ok callsign s cns h1 h2 h3 in
      let free = check_callsign_free_new callsign s h4 in
      let rows =
        create_rows_orphan (new_person callsign extra s) (record s { calls = suc s.calls }) csrpem
          csr e (insert_fits callsign (w.uuid4 s.calls) s.persons h4 h5) h6 h7 h8 in
      rw given (ground arith)
