-- ===== src/Tests/Access.antt =====
-- Who may call, who is valid, and what roles and revocation do, on small tables.
use python_rasenmaeher_api.Base.{
  ℕ, zero, suc, ◌+◌, ◌-◌, ◌≤◌, ◌<◌, String, ◌≡◌, refl, sym, ap, ◌∙◌, ◌≢◌, ◌↔◌, ◌⊎◌, inl, inr, Bool,
  true, false, not, ◌&&◌, ◌||◌, Option, none, some, List, [], ◌∷◌, ◌++◌, map, arith, ◌==◌, eq_iff,
  eq_refl, eqb, ltb, if◌then◌else◌, eqb_refl, Bool-cases, Option-cases, is_some, All, find_first,
  where_rows, update_rows, any,
}
use python_rasenmaeher_api.Exec.{
  Error, not_found, deleted, callsign_reserved, pool_inactive, forbidden_operation, token_reuse,
  backend_error, integrity_error, runtime_error, value_error, key_error, unbound_local_error,
  attribute_error, file_exists_error, http, Result, ok, err, is_err, is_not_found, is_value_error,
  is_http_exception, status_code, Exec, pure, raise, gets, or_raise, on_error, except_for, ◌>>=◌,
  ◌>>◌, modify, raise_if,
}
use python_rasenmaeher_api.Tests.World.{world, store, person, request}
use python_rasenmaeher_api.Json.{Dict, mem_text}
use python_rasenmaeher_api.Settings.{valid_product_cns}
use python_rasenmaeher_api.Db.{Person, Store}
use python_rasenmaeher_api.Db.People
use python_rasenmaeher_api.Db.People.{by_callsign, has_pk}
use python_rasenmaeher_api.Db.People.Revocation
use python_rasenmaeher_api.Db.People.Revocation.Laws.{delete_marks, IsMarked}
use python_rasenmaeher_api.Db.People.Roles.{assign_role, remove_role, role_pk}
use python_rasenmaeher_api.Db.People.Roles.Laws.{roles-IsTable, holds}
use python_rasenmaeher_api.Db.People.Roles.Laws
use python_rasenmaeher_api.Web.Auth
use python_rasenmaeher_api.Web.Auth.{mtls_or_jwt, default_disallowed, MtlsOrJwtPayload, valid_user}
use python_rasenmaeher_api.Web.Auth.Laws.{valid_user_sound, IsAccepted}
use python_rasenmaeher_api.Web.People.{delete_person}
use python_rasenmaeher_api.Web.People.Laws.{is_valid-delete_person}
use python_rasenmaeher_api.Web.Validity
use python_rasenmaeher_api.Web.Validity.{is_valid}
use python_rasenmaeher_api.Web.Validity.Laws.{is_valid-valid_user, request_of}

valid_user_sound_example :
    (store ≡ store)
    × (payload : MtlsOrJwtPayload) × (mtls_or_jwt default_disallowed true (request "boss") store
        ≡ (ok (some payload), store))
    × IsAccepted world ("admin" ∷ []) payload store (some (person 1 "boss"))
unfolding python_rasenmaeher_api.Base.find_first python_rasenmaeher_api.Db.checked
    python_rasenmaeher_api.Db.People.by_callsign python_rasenmaeher_api.Db.People.Roles.roles_of
    python_rasenmaeher_api.Db.People.Roles.roles_set python_rasenmaeher_api.Exec.is_not_found
    python_rasenmaeher_api.Json.lookup python_rasenmaeher_api.Json.mem_text
    python_rasenmaeher_api.Settings.load_manifest python_rasenmaeher_api.Settings.valid_product_cns
    python_rasenmaeher_api.Web.Auth.check_payload python_rasenmaeher_api.Web.Auth.check_roles
    python_rasenmaeher_api.Web.Auth.db_failure python_rasenmaeher_api.Web.Auth.get_dn
    python_rasenmaeher_api.Web.Auth.is_product python_rasenmaeher_api.Web.Auth.is_subset
    python_rasenmaeher_api.Web.Auth.load_user python_rasenmaeher_api.Web.Auth.mtls_or_jwt
    python_rasenmaeher_api.Web.Auth.no_user python_rasenmaeher_api.Web.Auth.person_of
    python_rasenmaeher_api.Web.Auth.valid_user
valid_user_sound_example =
    valid_user_sound world ("admin" ∷ []) (request "boss") store store (some (person 1 "boss")) refl

is_valid-valid_user_example :
    is_valid world "pelle" store
    ≡ (ok (not (is_err (valid_user world true [] (request_of "pelle") store).0)), store)
unfolding python_rasenmaeher_api.Settings.load_manifest
    python_rasenmaeher_api.Settings.valid_product_cns
is_valid-valid_user_example =
    is_valid-valid_user world "pelle" store ("tak.test" ∷ []) refl refl refl

abbrev revoked : Store
revoked = (delete_person world (request "boss") "pelle" store).1

is_valid-delete_person_example : is_valid world "PELLE" revoked ≡ (ok false, revoked)
unfolding python_rasenmaeher_api.Base.find_first python_rasenmaeher_api.Base.update_rows
    python_rasenmaeher_api.Cert.resolve_reason python_rasenmaeher_api.Cert.validate_reason
    python_rasenmaeher_api.Db.audit python_rasenmaeher_api.Db.call python_rasenmaeher_api.Db.checked
    python_rasenmaeher_api.Db.outside python_rasenmaeher_api.Db.People.by_callsign
    python_rasenmaeher_api.Db.People.Revocation.delete
    python_rasenmaeher_api.Db.People.Revocation.delete_row
    python_rasenmaeher_api.Db.People.Revocation.mark_and_tell
    python_rasenmaeher_api.Db.People.Revocation.revoke
    python_rasenmaeher_api.Db.People.Roles.roles_of python_rasenmaeher_api.Db.People.Roles.roles_set
    python_rasenmaeher_api.Exec.is_not_found python_rasenmaeher_api.Json.lookup
    python_rasenmaeher_api.Json.mem_text python_rasenmaeher_api.Settings.load_manifest
    python_rasenmaeher_api.Settings.valid_product_cns python_rasenmaeher_api.Web.found_or_404
    python_rasenmaeher_api.Web.refuse python_rasenmaeher_api.Web.Auth.admin
    python_rasenmaeher_api.Web.Auth.check_payload python_rasenmaeher_api.Web.Auth.check_roles
    python_rasenmaeher_api.Web.Auth.db_failure python_rasenmaeher_api.Web.Auth.get_dn
    python_rasenmaeher_api.Web.Auth.is_product python_rasenmaeher_api.Web.Auth.is_subset
    python_rasenmaeher_api.Web.Auth.load_user python_rasenmaeher_api.Web.Auth.mtls_or_jwt
    python_rasenmaeher_api.Web.Auth.no_user python_rasenmaeher_api.Web.Auth.person_of
    python_rasenmaeher_api.Web.Auth.valid_user python_rasenmaeher_api.Web.People.delete_found
    python_rasenmaeher_api.Web.People.delete_person python_rasenmaeher_api.Web.People.report_deleted
    python_rasenmaeher_api.Web.People.revoke_person
    python_rasenmaeher_api.Web.Validity.is_product_cn
is_valid-delete_person_example =
    is_valid-delete_person world (request "boss") "pelle" "PELLE" store revoked true refl refl refl
      refl

delete_marks_example :
    let (r, t) = Revocation.delete world (person 3 "pelle") store in
    ((r ≡ ok true) ⊎ (r ≡ err backend_error))
    × (after : Person) × (find_first (has_pk 3) t.persons ≡ some after)
    × IsMarked (person 3 "pelle") after
unfolding python_rasenmaeher_api.Base.find_first
delete_marks_example = delete_marks world (person 3 "pelle") store refl

abbrev promoted : Store
promoted = (assign_role world (person 3 "pelle") "admin" store).1

abbrev demoted : Store
demoted = (remove_role world (person 1 "boss") "admin" store).1

roles-IsTable_example :
    Laws.IsTable (assign_role world (person 3 "pelle") "admin" store).1.roles
    × Laws.IsTable (remove_role world (person 3 "pelle") "admin" store).1.roles
unfolding python_rasenmaeher_api.Base.any
roles-IsTable_example = roles-IsTable world (person 3 "pelle") "admin" store (refl, refl, tt)
