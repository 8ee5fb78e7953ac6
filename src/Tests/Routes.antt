-- ===== src/Tests/Routes.antt =====
-- The routes for administrators on a small database.
use python_rasenmaeher_api.Base.{
  ℕ, zero, suc, ◌+◌, ◌-◌, ◌≤◌, ◌<◌, String, ◌≡◌, refl, sym, ap, ◌∙◌, ◌≢◌, ◌↔◌, ◌⊎◌, inl, inr, Bool,
  true, false, not, ◌&&◌, ◌||◌, Option, none, some, List, [], ◌∷◌, ◌++◌, map, arith, ◌==◌, eq_iff,
  eq_refl, eqb, ltb, if◌then◌else◌, eqb_refl, Bool-cases, Option-cases, is_some, All, find_first,
  where_rows, update_rows, any,
}
use python_rasenmaeher_api.Exec.{
  Error, not_found, deleted, callsign_reserved, pool_inactive, forbidden_operation, token_reuse,
  backend_error, integrity_error, runtime_error, value_error, key_error, unbound_local_error,
  attribute_error, file_exists_error, http, Result, ok, err, is_err, is_not_found, is_value_error,
  is_http_exception, status_code, Exec, pure, raise, gets, or_raise, on_error, except_for, ◌>>=◌,
  ◌>>◌, modify, raise_if, cert_error,
}
use python_rasenmaeher_api.Tests.World.{world, store, request}
use python_rasenmaeher_api.Db.{Person, Store, World}
use python_rasenmaeher_api.Db.People
use python_rasenmaeher_api.Web.Enrollment.{
  request_enrollment_init, request_enrollment_promote, request_enrollment_demote,
  request_enrollment_lock, post_enrollment_accept,
}
use python_rasenmaeher_api.Web.Enrollment.Roles.{promoted, demoted, IsSwitched}
use python_rasenmaeher_api.Web.InviteCodes.{post_invite_code}
use python_rasenmaeher_api.Web.People.{delete_person}
use python_rasenmaeher_api.Web.Guard.{refused}
use python_rasenmaeher_api.Cert.{verify_csr}
use python_rasenmaeher_api.Json.{Dict, bool, str, get_flag}
use python_rasenmaeher_api.Web.Product.{return_ca_and_sign_csr, CertificatesResponse}
use python_rasenmaeher_api.Web.Product.Laws.{sign_csr_once}
use python_rasenmaeher_api.Cert.Subject.{verify_csr_prefix}

abbrev after_promotion : Store
after_promotion = (request_enrollment_promote world (request "boss") "PELLE" store).1

promoted_example : IsSwitched world "PELLE" store after_promotion true
unfolding python_rasenmaeher_api.Base.any python_rasenmaeher_api.Base.find_first
    python_rasenmaeher_api.Db.audit python_rasenmaeher_api.Db.call python_rasenmaeher_api.Db.checked
    python_rasenmaeher_api.Db.create_task python_rasenmaeher_api.Db.People.by_callsign
    python_rasenmaeher_api.Db.People.Roles.assign_new
    python_rasenmaeher_api.Db.People.Roles.assign_role
    python_rasenmaeher_api.Db.People.Roles.get_role python_rasenmaeher_api.Db.People.Roles.has_role
    python_rasenmaeher_api.Db.People.Roles.inform python_rasenmaeher_api.Db.People.Roles.insert_role
    python_rasenmaeher_api.Db.People.Roles.roles_of python_rasenmaeher_api.Db.People.Roles.roles_set
    python_rasenmaeher_api.Exec.is_not_found python_rasenmaeher_api.Json.lookup
    python_rasenmaeher_api.Json.mem_text python_rasenmaeher_api.Settings.load_manifest
    python_rasenmaeher_api.Settings.valid_product_cns python_rasenmaeher_api.Web.found_or_404
    python_rasenmaeher_api.Web.refuse python_rasenmaeher_api.Web.Auth.admin
    python_rasenmaeher_api.Web.Auth.check_payload python_rasenmaeher_api.Web.Auth.check_roles
    python_rasenmaeher_api.Web.Auth.db_failure python_rasenmaeher_api.Web.Auth.get_dn
    python_rasenmaeher_api.Web.Auth.is_product python_rasenmaeher_api.Web.Auth.is_subset
    python_rasenmaeher_api.Web.Auth.load_user python_rasenmaeher_api.Web.Auth.mtls_or_jwt
    python_rasenmaeher_api.Web.Auth.no_user python_rasenmaeher_api.Web.Auth.person_of
    python_rasenmaeher_api.Web.Auth.valid_user python_rasenmaeher_api.Web.Enrollment.report
    python_rasenmaeher_api.Web.Enrollment.request_enrollment_promote
promoted_example = promoted world (request "boss") "PELLE" store after_promotion refl

abbrev after_demotion : Store
after_demotion = (request_enrollment_demote world (request "boss") "boss" store).1

demoted_example : IsSwitched world "boss" store after_demotion false
unfolding python_rasenmaeher_api.Base.any python_rasenmaeher_api.Base.find_first
    python_rasenmaeher_api.Base.where_rows python_rasenmaeher_api.Db.audit
    python_rasenmaeher_api.Db.checked python_rasenmaeher_api.Db.create_task
    python_rasenmaeher_api.Db.People.by_callsign python_rasenmaeher_api.Db.People.Roles.delete_role
    python_rasenmaeher_api.Db.People.Roles.get_role python_rasenmaeher_api.Db.People.Roles.inform
    python_rasenmaeher_api.Db.People.Roles.remove_role
    python_rasenmaeher_api.Db.People.Roles.roles_of python_rasenmaeher_api.Db.People.Roles.roles_set
    python_rasenmaeher_api.Exec.is_not_found python_rasenmaeher_api.Json.lookup
    python_rasenmaeher_api.Json.mem_text python_rasenmaeher_api.Settings.load_manifest
    python_rasenmaeher_api.Settings.valid_product_cns python_rasenmaeher_api.Web.found_or_404
    python_rasenmaeher_api.Web.refuse python_rasenmaeher_api.Web.Auth.admin
    python_rasenmaeher_api.Web.Auth.check_payload python_rasenmaeher_api.Web.Auth.check_roles
    python_rasenmaeher_api.Web.Auth.db_failure python_rasenmaeher_api.Web.Auth.get_dn
    python_rasenmaeher_api.Web.Auth.is_product python_rasenmaeher_api.Web.Auth.is_subset
    python_rasenmaeher_api.Web.Auth.load_user python_rasenmaeher_api.Web.Auth.mtls_or_jwt
    python_rasenmaeher_api.Web.Auth.no_user python_rasenmaeher_api.Web.Auth.person_of
    python_rasenmaeher_api.Web.Auth.valid_user python_rasenmaeher_api.Web.Enrollment.report
    python_rasenmaeher_api.Web.Enrollment.request_enrollment_demote
demoted_example = demoted world (request "boss") "boss" store after_demotion (refl, refl, tt) refl

refused_example :
    (request_enrollment_init world (request "pelle") "newt" none store ≡ (err (http 403), store))
    × (request_enrollment_promote world (request "pelle") "newt" store ≡ (err (http 403), store))
    × (request_enrollment_demote world (request "pelle") "newt" store ≡ (err (http 403), store))
    × (request_enrollment_lock world (request "pelle") "newt" store ≡ (err (http 403), store))
    × (post_enrollment_accept world (request "pelle") "newt" "ABCD" store ≡ (err (http 403), store))
    × (post_invite_code world (request "pelle") store ≡ (err (http 403), store))
    × (delete_person world (request "pelle") "newt" store ≡ (err (http 403), store))
    × (store ≡ store)
unfolding python_rasenmaeher_api.Base.find_first python_rasenmaeher_api.Db.checked
    python_rasenmaeher_api.Db.People.by_callsign python_rasenmaeher_api.Db.People.Roles.roles_of
    python_rasenmaeher_api.Db.People.Roles.roles_set python_rasenmaeher_api.Exec.is_not_found
    python_rasenmaeher_api.Json.lookup python_rasenmaeher_api.Json.mem_text
    python_rasenmaeher_api.Settings.load_manifest python_rasenmaeher_api.Settings.valid_product_cns
    python_rasenmaeher_api.Web.Auth.admin python_rasenmaeher_api.Web.Auth.check_payload
    python_rasenmaeher_api.Web.Auth.check_roles python_rasenmaeher_api.Web.Auth.db_failure
    python_rasenmaeher_api.Web.Auth.get_dn python_rasenmaeher_api.Web.Auth.is_product
    python_rasenmaeher_api.Web.Auth.is_subset python_rasenmaeher_api.Web.Auth.load_user
    python_rasenmaeher_api.Web.Auth.mtls_or_jwt python_rasenmaeher_api.Web.Auth.no_user
    python_rasenmaeher_api.Web.Auth.person_of python_rasenmaeher_api.Web.Auth.valid_user
refused_example = refused world (request "pelle") store store (http 403) "newt" "ABCD" none refl

-- A deployment in which a request has the subject of another callsign.
abbrev longer : World
longer = record world { csr_subject = λ csr. some "CN=pelle2" }

verify_csr_prefix_example : verify_csr longer "csr" "pelle" ≡ ok true
verify_csr_prefix_example = verify_csr_prefix longer "csr" "pelle" "2" refl

abbrev signing : Dict
signing = ("csr", bool true) ∷ ("nonce", str "N2") ∷ []

-- The certificate is signed, and its bundle cannot be had.
abbrev unbundled : World
unbundled = record world { get_bundle = λ n cert. err cert_error }

sign_csr_once_example :
    ((r : CertificatesResponse) × (t : Store) × (return_ca_and_sign_csr unbundled signing "csr"
          store
        ≡ (ok r, t))
      × (get_flag "csr" signing ≡ true)
      × (return_ca_and_sign_csr unbundled signing "other" t ≡ (err (http 403), t)))
    ⊎ ((e : Error) × (t : Store) × (return_ca_and_sign_csr unbundled signing "csr" store
          ≡ (err e, t))
        × (t.seentokens ≡ store.seentokens))
sign_csr_once_example = sign_csr_once unbundled signing "csr" "other" store
