-- ===== src/Db/People/Linked.antt =====
-- `Person.revoke`, `Person.delete` and the rest of `Person._post_create` of
-- src/rasenmaeher_api/db/people.py with what they tell the products and Keycloak: the functions of
-- Db.People.Integration take the place of the outcomes that `World` gives to Db.People.Revocation.
pub mod Laws
use python_rasenmaeher_api.Base.{
  ℕ, zero, suc, ◌+◌, ◌-◌, ◌≤◌, ◌<◌, String, ◌≡◌, refl, sym, ap, ◌∙◌, ◌≢◌, ◌↔◌, ◌⊎◌, inl, inr, Bool,
  true, false, not, ◌&&◌, ◌||◌, Option, none, some, List, [], ◌∷◌, ◌++◌, map, arith, ◌==◌, eq_iff,
  eq_refl, eqb, ltb, if◌then◌else◌, eqb_refl, Bool-cases, Option-cases, is_some, All, find_first,
  where_rows, update_rows, any,
}
use python_rasenmaeher_api.Exec.{
  db_error, Error, not_found, deleted, callsign_reserved, pool_inactive, forbidden_operation,
  token_reuse, backend_error, integrity_error, runtime_error, value_error, key_error,
  unbound_local_error, attribute_error, file_exists_error, http, Result, ok, err, is_err,
  is_not_found, is_value_error, is_http_exception, status_code, Exec, pure, raise, gets, or_raise,
  on_error, except_for, ◌>>=◌, ◌>>◌, modify, raise_if,
}
use python_rasenmaeher_api.Db.{
  Person, World, ReasonFlag, outside, call, create_task, refresh_ocsp, create_pfx,
}
use python_rasenmaeher_api.Cert.{ReasonTypes, flag, validate_reason}
use python_rasenmaeher_api.Keycloak.{KeycloakAdmin, KcClient}
use python_rasenmaeher_api.Products.{Http}
use python_rasenmaeher_api.Db.People.{lift, update, has_pk}
use python_rasenmaeher_api.Db.People.Revocation.{has_cert, delete_row}
use python_rasenmaeher_api.Db.People.Integration.{Linked, in_store, user_revoked, tell_keycloak}

module _ (w : World) (uuid_text : ℕ → String) (tracked : Bool) {K : Type 0}
    (kcadmin : KeycloakAdmin K) (http : Http (Unit {0})) where
  -- The body of the `try` block of `revoke`. The commit expires the person's attributes: they are
  -- read from the row again when they are used, so what was changed in memory only is lost.
  unfoldable pub mark_and_tell_all : Person → ReasonFlag → Exec (Linked K) (Unit {0})
  unfolding call outside user_revoked find_first update_rows
  mark_and_tell_all person reason = do
    now ← in_store (call w.utcnow)
    in_store
        (update person.pk (λ p. record p { deleted = some now; revoke_reason = some reason.value }))
    found ← in_store (gets (λ s. find_first (has_pk person.pk) s.persons))
    reloaded ← or_raise db_error found
    in_store (outside (λ n. w.revoke_pem n reason))
    user_revoked w uuid_text tracked kcadmin http reloaded

  unfoldable pub revoke_everywhere : Person → ReasonTypes → Exec (Linked K) Bool
  unfolding validate_reason mark_and_tell_all
  revoke_everywhere person reason = do
    resolved ← in_store (lift (validate_reason w reason))
    on_error (mark_and_tell_all person resolved) (λ e. raise backend_error)
    pure true

  unfoldable pub delete_everywhere : Person → Exec (Linked K) Bool
  unfolding revoke_everywhere delete_row
  delete_everywhere person = do
    signed ← gets (λ s. has_cert person.pk s.store)
    elim signed [
      | true ↦ revoke_everywhere person (flag w.privilege_withdrawn)
      | false ↦ in_store (delete_row w person)
    ]

  -- `_post_create`; the tasks are only started.
  unfoldable pub post_create_everywhere : String → Person → Exec (Linked K) Person
  unfolding tell_keycloak
  post_create_everywhere password person = do
    refreshed ← tell_keycloak w uuid_text tracked kcadmin http password person
    in_store (create_task (create_pfx refreshed.pk))
    in_store (create_task refresh_ocsp)
    in_store (create_task (python_rasenmaeher_api.Db.user_created refreshed.pk))
    pure refreshed
