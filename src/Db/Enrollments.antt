-- ===== src/Db/Enrollments.antt =====
-- `Enrollment` of src/rasenmaeher_api/db/enrollments.py: requests to become a person, which are
-- approved or rejected.
pub mod Table
pub mod Creation
use python_rasenmaeher_api.Base.{
  ℕ, zero, suc, ◌+◌, ◌-◌, ◌≤◌, ◌<◌, String, ◌≡◌, refl, sym, ap, ◌∙◌, ◌≢◌, ◌↔◌, ◌⊎◌, inl, inr, Bool,
  true, false, not, ◌&&◌, ◌||◌, Option, none, some, List, [], ◌∷◌, ◌++◌, map, arith, ◌==◌, eq_iff,
  eq_refl, eqb, ltb, if◌then◌else◌, eqb_refl, Bool-cases, Option-cases, is_some, All, find_first,
  where_rows, update_rows, any,
}
use python_rasenmaeher_api.Exec.{
  Error, not_found, deleted, callsign_reserved, pool_inactive, forbidden_operation, token_reuse,
  backend_error, integrity_error, runtime_error, value_error, key_error, unbound_local_error,
  attribute_error, file_exists_error, http, Result, ok, err, is_err, is_not_found, is_value_error,
  is_http_exception, status_code, Exec, pure, raise, gets, or_raise, on_error, except_for, ◌>>=◌,
  ◌>>◌, modify, raise_if,
}
use python_rasenmaeher_api.Json.{Dict, mem_text}
use python_rasenmaeher_api.Settings.{valid_product_cns}
use python_rasenmaeher_api.Db.{
  Person, Enrollment, EnrollmentState, pending, approved, rejected, Store, Action, World, call,
  checked,
}
use python_rasenmaeher_api.Db.Codes.{generate_code, generate_unused_code}
use python_rasenmaeher_api.Db.People.{lift, text_or_none}
use python_rasenmaeher_api.Db.People.Creation.{check_csr, create_with_cert}

abbrev pub enrollment_deleted : Enrollment → Option ℕ
enrollment_deleted e = e.deleted

abbrev pub enrollment_pk : ℕ → Enrollment → Bool
enrollment_pk pk e = eqb e.pk pk

abbrev pub has_approvecode : String → Enrollment → Bool
has_approvecode code e = e.approvecode == code

-- The unique columns of the table.
abbrev pub enrollment_clashes : Enrollment → Enrollment → Bool
enrollment_clashes row other =
    enrollment_pk row.pk other
    || has_approvecode row.approvecode other
    || other.callsign == row.callsign

unfoldable pub insert_enrollment : Enrollment → Action (Unit {0})
insert_enrollment row = do
  taken ← gets (λ s. any (enrollment_clashes row) s.enrollments)
  raise_if taken integrity_error
  modify (λ s. record s { enrollments = s.enrollments ++ row ∷ [] })

abbrev pub update_enrollment : ℕ → (Enrollment → Enrollment) → Action (Unit {0})
update_enrollment pk g =
    modify (λ s. record s { enrollments = update_rows (enrollment_pk pk) g s.enrollments })

unfoldable pub by_pk : ℕ → Action Enrollment
unfolding checked
by_pk pk = do
  found ← gets (λ s. find_first (enrollment_pk pk) s.enrollments)
  checked enrollment_deleted false found

unfoldable pub by_approvecode : String → Action Enrollment
unfolding checked
by_approvecode code = do
  found ← gets (λ s. find_first (has_approvecode code) s.enrollments)
  checked enrollment_deleted false found

-- `Enrollment.list`, of one pool if one is given
abbrev pub in_pool : Option ℕ → Enrollment → Bool
in_pool none e = true
in_pool (some pool) e = elim e.pool [ none ↦ false | some pk ↦ eqb pk pool ]

unfoldable pub list : Option ℕ → Action (List Enrollment)
list by_pool = gets (λ s. where_rows (in_pool by_pool) s.enrollments)

-- What a decision writes.
abbrev pub decide : EnrollmentState → ℕ → ℕ → Option ℕ → Enrollment → Enrollment
decide state by on person e = record e {
  state = state;
  decided_by = some by;
  decided_on = some on;
  person = person;
}

abbrev pub new_enrollment :
    ℕ → String → String → Option ℕ → Option Dict → Option String → Enrollment
new_enrollment pk code callsign pool extra csr = record {
  pk = pk;
  deleted = none;
  approvecode = code;
  callsign = callsign;
  decided_on = none;
  decided_by = none;
  person = none;
  pool = pool;
  state = pending;
  extra = extra;
  csr = csr;
}

module _ (w : World) where
  abbrev pub enrollment_callsign : String → Enrollment → Bool
  enrollment_callsign callsign e = w.lower e.callsign == w.lower callsign

  unfoldable pub by_callsign : String → Action Enrollment
  unfolding checked
  by_callsign callsign = do
    found ← gets (λ s. find_first (enrollment_callsign callsign) s.enrollments)
    checked enrollment_deleted false found

  unfoldable pub by_pk_or_callsign : String → Action Enrollment
  unfolding by_pk by_callsign is_value_error
  by_pk_or_callsign inval =
      except_for is_value_error (do pk ← or_raise value_error (w.parse_uuid inval); by_pk pk)
        (by_callsign inval)

  unfoldable pub approve : Enrollment → Person → Action Person
  unfolding call
  approve enrollment approver = do
    person ← create_with_cert w enrollment.callsign enrollment.extra enrollment.csr
    now ← call w.utcnow
    update_enrollment enrollment.pk (decide approved approver.pk now (some person.pk))
    pure person

  unfoldable pub reject : Enrollment → Person → Action (Unit {0})
  unfolding call
  reject enrollment decider = do
    now ← call w.utcnow
    update_enrollment enrollment.pk (λ e. decide rejected decider.pk now e.person e)

  unfoldable pub reset_approvecode : Enrollment → Action String
  reset_approvecode enrollment = do
    code ← generate_unused_code by_approvecode (generate_code w)
    taken ← gets (λ s.
        any (λ e. not (enrollment_pk enrollment.pk e) && has_approvecode code e) s.enrollments)
    raise_if taken integrity_error
    update_enrollment enrollment.pk (λ e. record e { approvecode = code })
    pure code

  unfoldable pub reset_approvecode4callsign : String → Action String
  unfolding by_callsign reset_approvecode
  reset_approvecode4callsign callsign = do obj ← by_callsign callsign; reset_approvecode obj

  unfoldable pub check_enrollment_free : String → Action (Unit {0})
  unfolding by_callsign is_not_found
  check_enrollment_free callsign =
      except_for is_not_found (do by_callsign callsign; raise callsign_reserved) (pure tt)

  unfoldable pub check_product_names : String → Action (Unit {0})
  check_product_names callsign = do
    cns ← lift (valid_product_cns w.settings)
    raise_if (mem_text callsign cns) callsign_reserved

  -- The end of `create_for_callsign`, with a code that is not in use.
  unfoldable pub enroll :
      String → Option ℕ → Option Dict → Option String → String → Action Enrollment
  unfolding call insert_enrollment
  enroll callsign pool extra csr code = do
    pk ← call w.uuid4
    insert_enrollment (new_enrollment pk code callsign pool extra csr)
    pure (new_enrollment pk code callsign pool extra csr)

  unfoldable pub create_for_callsign :
      String → Option ℕ → Option Dict → Option String → Action Enrollment
  create_for_callsign callsign pool extra csr = do
    check_product_names callsign
    check_csr w (text_or_none csr) callsign
    check_enrollment_free callsign
    code ← generate_unused_code by_approvecode (generate_code w)
    enroll callsign pool extra csr code

-- `Enrollment.delete`
unfoldable pub delete : Enrollment → Action Bool
delete enrollment = raise forbidden_operation
