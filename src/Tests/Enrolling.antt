-- ===== src/Tests/Enrolling.antt =====
-- Enrollments, invite codes and new people on small tables.
use python_rasenmaeher_api.Base.{
  ℕ, zero, suc, ◌+◌, ◌-◌, ◌≤◌, ◌<◌, String, ◌≡◌, refl, sym, ap, ◌∙◌, ◌≢◌, ◌↔◌, ◌⊎◌, inl, inr, Bool,
  true, false, not, ◌&&◌, ◌||◌, Option, none, some, List, [], ◌∷◌, ◌++◌, map, arith, ◌==◌, eq_iff,
  eq_refl, eqb, ltb, if◌then◌else◌, eqb_refl, Bool-cases, Option-cases, is_some, All, find_first,
  where_rows, update_rows, any,
}
use python_rasenmaeher_api.Exec.{
  Error, not_found, deleted, callsign_reserved, pool_inactive, forbidden_operation, token_reuse,
  backend_error, integrity_error, runtime_error, value_error, key_error, unbound_local_error,
  attribute_error, file_exists_error, http, Result, ok, err, is_err, is_not_found, is_value_error,
  is_http_exception, status_code, Exec, pure, raise, gets, or_raise, on_error, except_for, ◌>>=◌,
  ◌>>◌, modify, raise_if,
}
use python_rasenmaeher_api.Tests.World.{world, store, person, request}
use python_rasenmaeher_api.Json.{Dict, get_flag, bool, mem_text}
use python_rasenmaeher_api.Settings.{valid_product_cns}
use python_rasenmaeher_api.Db.{Person, Store, World, rejected, Enrollment}
use python_rasenmaeher_api.Db.People
use python_rasenmaeher_api.Db.People.{by_callsign}
use python_rasenmaeher_api.Db.People.Creation.{create_with_cert}
use python_rasenmaeher_api.Db.People.Creation.Laws.{
  create_with_cert_taken, create_with_cert_orphan, new_person,
}
use python_rasenmaeher_api.Web.Auth.{MtlsOrJwtPayload, mtls_or_jwt, default_disallowed}
use python_rasenmaeher_api.Db.Enrollments.{create_for_callsign, new_enrollment, enrollment_callsign}
use python_rasenmaeher_api.Db.Enrollments.Table
use python_rasenmaeher_api.Db.Enrollments.Creation.{by_callsign-create_for_callsign, IsPending}
use python_rasenmaeher_api.Db.Enrollments
use python_rasenmaeher_api.Db.Enrollments.Table.{create_for_callsign-IsTable}
use python_rasenmaeher_api.Db.Pools
use python_rasenmaeher_api.Db.Pools.{create_for_owner, by_invitecode}
use python_rasenmaeher_api.Db.LoginCodes.{use_code}
use python_rasenmaeher_api.Web.Enrollment
use python_rasenmaeher_api.Web.Enrollment.{
  request_enrollment_lock, post_enrollment_accept, request_have_i_been_accepted,
}
use python_rasenmaeher_api.Web.Enrollment.Laws.{locked_is_accepted, Enrolled}
use python_rasenmaeher_api.Web.Enrollment.Accepting.{accepted, IsAccepting}
use python_rasenmaeher_api.Web.InviteCodes
use python_rasenmaeher_api.Web.InviteCodes.{
  put_activate_invite_code, put_deactivate_invite_code, delete_invite_code, post_invite_code,
  get_invite_codes, post_enroll_invite_code,
}
use python_rasenmaeher_api.Web.InviteCodes.Laws.{deactivated_code, deleted_code}
use python_rasenmaeher_api.Web.FirstUser
use python_rasenmaeher_api.Web.FirstUser.{post_admin_add, get_check_code}
use python_rasenmaeher_api.Web.FirstUser.Laws.{
  post_admin_add-use_code, get_check_code-use_code, IsLogin,
}

abbrev decided : Store
decided = (post_enrollment_accept world (request "boss") "otter" "ABCD" store).1

accepted_example :
    (payload : MtlsOrJwtPayload) × (mtls_or_jwt default_disallowed true (request "boss") store
      ≡ (ok (some payload), store))
    × IsAccepting world payload.userid "otter" "ABCD" store decided
unfolding python_rasenmaeher_api.Base.any python_rasenmaeher_api.Base.find_first
    python_rasenmaeher_api.Base.update_rows python_rasenmaeher_api.Base.where_rows
    python_rasenmaeher_api.Cert.verify_csr python_rasenmaeher_api.Db.audit
    python_rasenmaeher_api.Db.call python_rasenmaeher_api.Db.checked
    python_rasenmaeher_api.Db.create_task python_rasenmaeher_api.Db.outside
    python_rasenmaeher_api.Db.Enrollments.approve python_rasenmaeher_api.Db.Enrollments.by_callsign
    python_rasenmaeher_api.Db.People.by_callsign python_rasenmaeher_api.Db.People.insert
    python_rasenmaeher_api.Db.People.make_directory
    python_rasenmaeher_api.Db.People.remove_directory
    python_rasenmaeher_api.Db.People.Creation.check_callsign_free
    python_rasenmaeher_api.Db.People.Creation.check_csr
    python_rasenmaeher_api.Db.People.Creation.check_service_names
    python_rasenmaeher_api.Db.People.Creation.create_rows
    python_rasenmaeher_api.Db.People.Creation.create_with_cert
    python_rasenmaeher_api.Db.People.Creation.obtain_csr
    python_rasenmaeher_api.Db.People.Creation.post_create
    python_rasenmaeher_api.Db.People.Creation.save_and_sign
    python_rasenmaeher_api.Db.People.Creation.store_extra
    python_rasenmaeher_api.Db.People.Roles.roles_of python_rasenmaeher_api.Db.People.Roles.roles_set
    python_rasenmaeher_api.Exec.is_not_found python_rasenmaeher_api.Json.lookup
    python_rasenmaeher_api.Json.mem_text python_rasenmaeher_api.Settings.load_manifest
    python_rasenmaeher_api.Settings.valid_product_cns python_rasenmaeher_api.Text.unescape_newlines
    python_rasenmaeher_api.Web.found_or_404 python_rasenmaeher_api.Web.refuse
    python_rasenmaeher_api.Web.Auth.admin python_rasenmaeher_api.Web.Auth.check_payload
    python_rasenmaeher_api.Web.Auth.check_roles python_rasenmaeher_api.Web.Auth.db_failure
    python_rasenmaeher_api.Web.Auth.get_dn python_rasenmaeher_api.Web.Auth.is_product
    python_rasenmaeher_api.Web.Auth.is_subset python_rasenmaeher_api.Web.Auth.load_user
    python_rasenmaeher_api.Web.Auth.mtls_or_jwt python_rasenmaeher_api.Web.Auth.no_user
    python_rasenmaeher_api.Web.Auth.person_of python_rasenmaeher_api.Web.Auth.valid_user
    python_rasenmaeher_api.Web.Enrollment.accept_checked
    python_rasenmaeher_api.Web.Enrollment.accept_pending
    python_rasenmaeher_api.Web.Enrollment.decision
    python_rasenmaeher_api.Web.Enrollment.given_userid
    python_rasenmaeher_api.Web.Enrollment.post_enrollment_accept
accepted_example = accepted world (request "boss") "otter" "ABCD" "otter" store decided refl

abbrev locked : Store
locked = (request_enrollment_lock world (request "boss") "otter" store).1

locked_is_accepted_example :
    Enrolled world "otter" (λ e. e.state ≡ rejected) locked
    × (request_have_i_been_accepted world (request "otter") locked ≡ (ok true, locked))
unfolding python_rasenmaeher_api.Base.find_first python_rasenmaeher_api.Base.update_rows
    python_rasenmaeher_api.Db.audit python_rasenmaeher_api.Db.call python_rasenmaeher_api.Db.checked
    python_rasenmaeher_api.Db.Enrollments.by_callsign python_rasenmaeher_api.Db.Enrollments.reject
    python_rasenmaeher_api.Db.People.by_callsign python_rasenmaeher_api.Db.People.Roles.roles_of
    python_rasenmaeher_api.Db.People.Roles.roles_set python_rasenmaeher_api.Exec.is_not_found
    python_rasenmaeher_api.Json.lookup python_rasenmaeher_api.Json.mem_text
    python_rasenmaeher_api.Settings.load_manifest python_rasenmaeher_api.Settings.valid_product_cns
    python_rasenmaeher_api.Web.found_or_404 python_rasenmaeher_api.Web.refuse
    python_rasenmaeher_api.Web.Auth.admin python_rasenmaeher_api.Web.Auth.authenticated
    python_rasenmaeher_api.Web.Auth.check_payload python_rasenmaeher_api.Web.Auth.check_roles
    python_rasenmaeher_api.Web.Auth.db_failure python_rasenmaeher_api.Web.Auth.get_dn
    python_rasenmaeher_api.Web.Auth.is_product python_rasenmaeher_api.Web.Auth.is_subset
    python_rasenmaeher_api.Web.Auth.load_user python_rasenmaeher_api.Web.Auth.mtls_or_jwt
    python_rasenmaeher_api.Web.Auth.no_user python_rasenmaeher_api.Web.Auth.person_of
    python_rasenmaeher_api.Web.Auth.valid_user python_rasenmaeher_api.Web.Enrollment.decision
    python_rasenmaeher_api.Web.Enrollment.given_userid
    python_rasenmaeher_api.Web.Enrollment.request_enrollment_lock
locked_is_accepted_example =
    locked_is_accepted world (request "boss") (request "otter") "otter" store locked refl refl

create_for_callsign-IsTable_example :
    Table.IsTable world (create_for_callsign world "newt" none none none store).1.enrollments
create_for_callsign-IsTable_example =
    create_for_callsign-IsTable world "newt" none none none store
      (record { undeleted = (refl, tt); distinct = (tt, tt) })

abbrev newt : Enrollment
newt = new_enrollment 102 "AB" "newt" none none none

abbrev enrolled : Store
enrolled = (create_for_callsign world "newt" none none none store).1

by_callsign-create_for_callsign_example :
    (find_first (enrollment_callsign world "newt") store.enrollments ≡ none)
    × (enrolled.enrollments ≡ store.enrollments ++ newt ∷ [])
    × (Enrollments.by_callsign world "newt" enrolled ≡ (ok newt, enrolled))
    × IsPending world "newt" none none none newt
unfolding python_rasenmaeher_api.Base.any python_rasenmaeher_api.Base.find_first
    python_rasenmaeher_api.Cert.verify_csr python_rasenmaeher_api.Db.call
    python_rasenmaeher_api.Db.checked python_rasenmaeher_api.Db.Codes.char_at
    python_rasenmaeher_api.Db.Codes.draw_code python_rasenmaeher_api.Db.Codes.find_unused
    python_rasenmaeher_api.Db.Codes.generate_code
    python_rasenmaeher_api.Db.Codes.generate_unused_code python_rasenmaeher_api.Db.Codes.is_taken
    python_rasenmaeher_api.Db.Codes.replace python_rasenmaeher_api.Db.Enrollments.by_approvecode
    python_rasenmaeher_api.Db.Enrollments.by_callsign
    python_rasenmaeher_api.Db.Enrollments.check_enrollment_free
    python_rasenmaeher_api.Db.Enrollments.check_product_names
    python_rasenmaeher_api.Db.Enrollments.create_for_callsign
    python_rasenmaeher_api.Db.Enrollments.enroll
    python_rasenmaeher_api.Db.Enrollments.insert_enrollment
    python_rasenmaeher_api.Db.People.Creation.check_csr python_rasenmaeher_api.Exec.is_not_found
    python_rasenmaeher_api.Json.mem_text python_rasenmaeher_api.Settings.load_manifest
    python_rasenmaeher_api.Settings.valid_product_cns
by_callsign-create_for_callsign_example =
    by_callsign-create_for_callsign world "newt" none none none store enrolled newt
      (record { undeleted = (refl, tt); distinct = (tt, tt) }) refl

create_with_cert_taken_example :
    (is_err (create_with_cert world "PELLE" none none store).0 ≡ true)
    × ((create_with_cert world "PELLE" none none store).1 ≡ store)
unfolding python_rasenmaeher_api.Base.find_first python_rasenmaeher_api.Db.checked
    python_rasenmaeher_api.Db.People.by_callsign
create_with_cert_taken_example =
    create_with_cert_taken world "PELLE" none none store (person 3 "pelle") refl

-- A deployment whose certificate backend fails.
abbrev failing : World
failing = record world { sign_csr = λ n csr. err backend_error; csr_subject = λ s. some "CN=newt" }

create_with_cert_orphan_example : create_with_cert failing "newt" none (some "csr") store ≡ (
  err backend_error,
  record store { persons = store.persons ++ new_person failing "newt" none store ∷ []; calls = 2 },
)
unfolding python_rasenmaeher_api.Base.any python_rasenmaeher_api.Base.find_first
    python_rasenmaeher_api.Cert.verify_csr python_rasenmaeher_api.Json.mem_text
    python_rasenmaeher_api.Settings.load_manifest python_rasenmaeher_api.Settings.valid_product_cns
create_with_cert_orphan_example =
    create_with_cert_orphan failing "newt" none (some "csr") store ("tak.test" ∷ []) "csr"
      backend_error refl refl refl refl refl refl (refl, refl, refl) refl

abbrev closed : Store
closed = (put_deactivate_invite_code (request "boss") "POOL" store).1

deactivated_code_example :
    (get_invite_codes "POOL" closed ≡ (ok false, closed))
    × ((post_enroll_invite_code world "POOL" "newt" none closed).0 ≡ err (http 400))
    × ((post_enroll_invite_code world "POOL" "newt" none closed).1.enrollments ≡ closed.enrollments)
unfolding python_rasenmaeher_api.Base.find_first python_rasenmaeher_api.Base.update_rows
    python_rasenmaeher_api.Db.audit python_rasenmaeher_api.Db.checked
    python_rasenmaeher_api.Db.Pools.by_invitecode python_rasenmaeher_api.Db.Pools.set_active
    python_rasenmaeher_api.Exec.is_not_found python_rasenmaeher_api.Json.lookup
    python_rasenmaeher_api.Json.mem_text python_rasenmaeher_api.Web.found_or_404
    python_rasenmaeher_api.Web.refuse python_rasenmaeher_api.Web.Auth.authenticated
    python_rasenmaeher_api.Web.Auth.get_dn python_rasenmaeher_api.Web.Auth.mtls_or_jwt
    python_rasenmaeher_api.Web.InviteCodes.deactivate_code
    python_rasenmaeher_api.Web.InviteCodes.find_code
    python_rasenmaeher_api.Web.InviteCodes.put_deactivate_invite_code
    python_rasenmaeher_api.Web.InviteCodes.report_active
deactivated_code_example =
    deactivated_code world (request "boss") "POOL" "newt" none store closed refl

abbrev removed : Store
removed = (delete_invite_code world (request "boss") "POOL" store).1

deleted_code_example :
    (get_invite_codes "POOL" removed ≡ (ok false, removed))
    × ((post_enroll_invite_code world "POOL" "newt" none removed).0 ≡ err (http 404))
    × ((post_enroll_invite_code world "POOL" "newt" none removed).1.enrollments
        ≡ removed.enrollments)
unfolding python_rasenmaeher_api.Base.find_first python_rasenmaeher_api.Base.update_rows
    python_rasenmaeher_api.Db.audit python_rasenmaeher_api.Db.call python_rasenmaeher_api.Db.checked
    python_rasenmaeher_api.Db.Pools.by_invitecode python_rasenmaeher_api.Db.Pools.delete
    python_rasenmaeher_api.Exec.is_not_found python_rasenmaeher_api.Json.lookup
    python_rasenmaeher_api.Json.mem_text python_rasenmaeher_api.Web.found_or_404
    python_rasenmaeher_api.Web.refuse python_rasenmaeher_api.Web.Auth.authenticated
    python_rasenmaeher_api.Web.Auth.get_dn python_rasenmaeher_api.Web.Auth.mtls_or_jwt
    python_rasenmaeher_api.Web.InviteCodes.delete_code
    python_rasenmaeher_api.Web.InviteCodes.delete_invite_code
deleted_code_example = deleted_code world (request "boss") "POOL" "newt" none store removed refl

abbrev first_admin : Store
first_admin = (post_admin_add world (("anon_admin_session", bool true) ∷ []) "newt" none store).1

post_admin_add-use_code_example :
    (get_flag "anon_admin_session" (("anon_admin_session", bool true) ∷ []) ≡ true)
    × IsLogin world "newt" "JKLMNOPQRSTU" first_admin
unfolding python_rasenmaeher_api.Base.any python_rasenmaeher_api.Base.find_first
    python_rasenmaeher_api.Base.update_rows python_rasenmaeher_api.Base.where_rows
    python_rasenmaeher_api.Cert.verify_csr python_rasenmaeher_api.Db.audit
    python_rasenmaeher_api.Db.call python_rasenmaeher_api.Db.checked
    python_rasenmaeher_api.Db.create_task python_rasenmaeher_api.Db.outside
    python_rasenmaeher_api.Db.Codes.char_at python_rasenmaeher_api.Db.Codes.draw_code
    python_rasenmaeher_api.Db.Codes.find_unused python_rasenmaeher_api.Db.Codes.generate_code
    python_rasenmaeher_api.Db.Codes.generate_unused_code python_rasenmaeher_api.Db.Codes.is_taken
    python_rasenmaeher_api.Db.Codes.replace python_rasenmaeher_api.Db.Enrollments.approve
    python_rasenmaeher_api.Db.Enrollments.by_approvecode
    python_rasenmaeher_api.Db.Enrollments.by_callsign
    python_rasenmaeher_api.Db.Enrollments.check_enrollment_free
    python_rasenmaeher_api.Db.Enrollments.check_product_names
    python_rasenmaeher_api.Db.Enrollments.create_for_callsign
    python_rasenmaeher_api.Db.Enrollments.enroll
    python_rasenmaeher_api.Db.Enrollments.insert_enrollment
    python_rasenmaeher_api.Db.LoginCodes.by_code
    python_rasenmaeher_api.Db.LoginCodes.create_for_claims
    python_rasenmaeher_api.Db.LoginCodes.insert_claims
    python_rasenmaeher_api.Db.LoginCodes.insert_code python_rasenmaeher_api.Db.People.by_callsign
    python_rasenmaeher_api.Db.People.insert python_rasenmaeher_api.Db.People.is_callsign_available
    python_rasenmaeher_api.Db.People.make_directory
    python_rasenmaeher_api.Db.People.remove_directory
    python_rasenmaeher_api.Db.People.Creation.check_callsign_free
    python_rasenmaeher_api.Db.People.Creation.check_csr
    python_rasenmaeher_api.Db.People.Creation.check_service_names
    python_rasenmaeher_api.Db.People.Creation.create_rows
    python_rasenmaeher_api.Db.People.Creation.create_with_cert
    python_rasenmaeher_api.Db.People.Creation.obtain_csr
    python_rasenmaeher_api.Db.People.Creation.post_create
    python_rasenmaeher_api.Db.People.Creation.save_and_sign
    python_rasenmaeher_api.Db.People.Creation.store_extra
    python_rasenmaeher_api.Db.People.Roles.assign_new
    python_rasenmaeher_api.Db.People.Roles.assign_role
    python_rasenmaeher_api.Db.People.Roles.get_role python_rasenmaeher_api.Db.People.Roles.has_role
    python_rasenmaeher_api.Db.People.Roles.inform python_rasenmaeher_api.Db.People.Roles.insert_role
    python_rasenmaeher_api.Exec.is_not_found python_rasenmaeher_api.Json.get_flag
    python_rasenmaeher_api.Json.lookup python_rasenmaeher_api.Json.mem_text
    python_rasenmaeher_api.Json.truthy python_rasenmaeher_api.Settings.load_manifest
    python_rasenmaeher_api.Settings.valid_product_cns python_rasenmaeher_api.Text.unescape_newlines
    python_rasenmaeher_api.Web.refuse python_rasenmaeher_api.Web.FirstUser.add_admin
    python_rasenmaeher_api.Web.FirstUser.approve_admin
    python_rasenmaeher_api.Web.FirstUser.bootstrap
    python_rasenmaeher_api.Web.FirstUser.create_anon_admin
    python_rasenmaeher_api.Web.FirstUser.make_admin
    python_rasenmaeher_api.Web.FirstUser.post_admin_add
post_admin_add-use_code_example =
    post_admin_add-use_code world (("anon_admin_session", bool true) ∷ []) "newt" none store
      first_admin "JKLMNOPQRSTU" refl

get_check_code-use_code_example :
    (is_err (use_code world "LOGIN" none store).0 ≡ false)
    ↔ ((get_check_code "LOGIN" store).0 ≡ ok true)
get_check_code-use_code_example = get_check_code-use_code world "LOGIN" store
