-- ===== src/Db/People/Revocation.antt =====
-- `Person.revoke` and `Person.delete` of src/rasenmaeher_api/db/people.py, and `delete` of
-- src/rasenmaeher_api/db/base.py for people.
pub mod Laws
use python_rasenmaeher_api.Base.{
  ℕ, zero, suc, ◌+◌, ◌-◌, ◌≤◌, ◌<◌, String, ◌≡◌, refl, sym, ap, ◌∙◌, ◌≢◌, ◌↔◌, ◌⊎◌, inl, inr, Bool,
  true, false, not, ◌&&◌, ◌||◌, Option, none, some, List, [], ◌∷◌, ◌++◌, map, arith, ◌==◌, eq_iff,
  eq_refl, eqb, ltb, if◌then◌else◌, eqb_refl, Bool-cases, Option-cases, is_some, All, find_first,
  where_rows, update_rows, any,
}
use python_rasenmaeher_api.Exec.{
  Error, not_found, deleted, callsign_reserved, pool_inactive, forbidden_operation, token_reuse,
  backend_error, integrity_error, runtime_error, value_error, key_error, unbound_local_error,
  attribute_error, file_exists_error, http, Result, ok, err, is_err, is_not_found, is_value_error,
  is_http_exception, status_code, Exec, pure, raise, gets, or_raise, on_error, except_for, ◌>>=◌,
  ◌>>◌, modify, raise_if,
}
use python_rasenmaeher_api.Db.{Person, Store, Action, World, call, outside, ReasonFlag}
use python_rasenmaeher_api.Cert.{ReasonTypes, flag, validate_reason}
use python_rasenmaeher_api.Db.People.{lift, update, files_of, has_pk}

-- `self.certfile.exists()`
abbrev pub has_cert : ℕ → Store → Bool
has_cert pk s = elim (files_of pk s) [ none ↦ false | some f ↦ is_some f.cert ]

module _ (w : World) where
  -- The body of the `try` block: the row is committed before the backends are told.
  unfoldable pub mark_and_tell : Person → ReasonFlag → Action (Unit {0})
  unfolding call outside
  mark_and_tell person reason = do
    now ← call w.utcnow
    update person.pk (λ p. record p { deleted = some now; revoke_reason = some reason.value })
    outside (λ n. w.revoke_pem n reason)
    outside (λ n. w.user_revoked n person)

  unfoldable pub revoke : Person → ReasonTypes → Action Bool
  unfolding validate_reason
  revoke person reason = do
    resolved ← lift (validate_reason w reason)
    on_error (mark_and_tell person resolved) (λ e. raise backend_error)
    pure true

  -- `ORMBaseModel.delete`
  unfoldable pub delete_row : Person → Action Bool
  unfolding call
  delete_row person = do
    now ← call w.utcnow
    update person.pk (λ p. record p { deleted = some now })
    pure true

  unfoldable pub delete : Person → Action Bool
  delete person = do
    signed ← gets (has_cert person.pk)
    elim signed [ true ↦ revoke person (flag w.privilege_withdrawn) | false ↦ delete_row person ]
