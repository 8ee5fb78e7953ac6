-- ===== src/Tests/Outside.antt =====
-- The audit log, the start-up, Keycloak, the products and the certificate backends on small cases.
use python_rasenmaeher_api.Base.{
  ℕ, zero, suc, ◌+◌, ◌-◌, ◌≤◌, ◌<◌, String, ◌≡◌, refl, sym, ap, ◌∙◌, ◌≢◌, ◌↔◌, ◌⊎◌, inl, inr, Bool,
  true, false, not, ◌&&◌, ◌||◌, Option, none, some, List, [], ◌∷◌, ◌++◌, map, arith, ◌==◌, eq_iff,
  eq_refl, eqb, ltb, if◌then◌else◌, eqb_refl, Bool-cases, Option-cases, is_some, All, find_first,
  where_rows, update_rows, any,
}
use python_rasenmaeher_api.Exec.{keycloak_error, db_error, key_error, ok, err, pure, raise}
use python_rasenmaeher_api.Tests.World.{world, store, person, settings}
use python_rasenmaeher_api.Web.Audit.{Request}
use python_rasenmaeher_api.Startup.Database.{DbWrapper, Database, create_engine, app_startup_event}
use python_rasenmaeher_api.Startup.Database.Laws.{Ended, app_startup_event-Ended}
use python_rasenmaeher_api.Startup.Mtls.{MtlsWorld, Disk, mtls_init}
use python_rasenmaeher_api.Startup.Mtls.Created.{Works}
use python_rasenmaeher_api.Startup.Mtls.Laws.{Connected, mtls_init-Connected}
use python_rasenmaeher_api.Startup.Console.{do_http_healthcheck, dump_services, dump_basic}
use python_rasenmaeher_api.Startup.Console.Laws.{do_http_healthcheck-reports}
use python_rasenmaeher_api.Web.Health.{
  Versions, AllProductsHealthCheckResponse, BasicHealthCheckResponse, ProductHealth, basic_response,
  request_healthcheck_services,
}
use python_rasenmaeher_api.Web.Health.Laws.{all_ok_iff, AnswersHealthy, IsGiven}
use python_rasenmaeher_api.Keycloak.{KeycloakAdmin, KcClient, KcUserData, RoleRep, check_user_roles}
use python_rasenmaeher_api.Keycloak.Laws.{RealmRoles, Adjusted, check_user_roles-Adjusted}
use python_rasenmaeher_api.Cert.Cfssl.{json, answered, Answer, client_error, Service}
use python_rasenmaeher_api.Db.People.Integration.{update_from_kcdata, own_kcdata}
use python_rasenmaeher_api.Db.People.Integration.Laws.{Tells, update_from_kcdata_recorded}
use python_rasenmaeher_api.Cert.CertManager.{is_name_code, cr_name}
use python_rasenmaeher_api.Cert.CertManager.Names.{IsName, cr_name-IsName}
use python_rasenmaeher_api.Json.{
  null, nil, end, num, cons, array, field, object, without_keys, str, Dict, mem_text, lookup,
}
use python_rasenmaeher_api.Settings.{load_manifest, Manifest, Product}
use python_rasenmaeher_api.Products.{Http, names}
use python_rasenmaeher_api.Db.{Store, ReasonFlag, Person}

abbrev forged : Request
forged = record {
  client_host = some "10.0.0.1";
  header = λ name. if name == "X-Real-IP" then some " 192.0.2.7\nfaked=1 " else none;
}

abbrev wrapper : DbWrapper
wrapper = record { init_db = true; retry_limit = 5 }

-- The database answers to the third attempt.
abbrev slow : Database
slow = record { engine = λ n. ok tt; init = λ n. if ltb n 3 then err db_error else ok tt }

app_startup_event-Ended_example :
    Ended (create_engine wrapper slow) wrapper.retry_limit 0 (app_startup_event wrapper slow)
app_startup_event-Ended_example = app_startup_event-Ended wrapper slow

third_attempt : app_startup_event wrapper slow ≡ some (ok tt, 3)
unfolding app_startup_event create_engine
third_attempt = refl

-- Another process has the lock in the first round.
abbrev shared : MtlsWorld
shared = record {
  lock = λ round. not (eqb round 0);
  others = λ round files. files;
  resolve_pubkey_path = λ dir prefix. "pub";
  resolve_csr_path = λ dir prefix. "csr";
  create_keypair = λ round. ok ("private", "public");
  create_client_csr = λ key cn. ok "request";
  anon_sign_csr = λ csrpem. ok "signed";
}

abbrev empty_disk : Disk
empty_disk = record {
  config = record {
    persistent_data_dir = "data";
    mtls_client_cert_path = none;
    mtls_client_key_path = none;
    mtls_client_cert_cn = "rasenmaeher";
  };
  files = [];
}

works : Works shared
works = record {
  keypairs = λ round. (("private", "public"), refl);
  requests = λ key cn. ("request", refl);
  signs = λ csrpem. ("signed", refl);
}

mtls_init-Connected_example : Connected shared empty_disk.config (mtls_init shared 2 0 empty_disk)
unfolding lookup
mtls_init-Connected_example =
    mtls_init-Connected shared works 1 0 empty_disk refl (λ e. absurd (ground arith))
      (λ n files h. h)

abbrev healthy : AllProductsHealthCheckResponse
healthy = record { all_ok = true; products = ("tak", true) ∷ [] }

abbrev versions : Versions
versions = record { rm_version = "1"; release_tag = none; release_status = none }

abbrev report : BasicHealthCheckResponse
report =
    basic_response versions
      (record { dns = some "test.example"; deployment = some "test"; products = none })

do_http_healthcheck-reports_example :
    (do_http_healthcheck true 200 (dump_services healthy) ≡ err key_error)
    × (do_http_healthcheck false 200 (dump_basic report) ≡ ok 0)
unfolding python_rasenmaeher_api.Web.Health.request_healthcheck
    python_rasenmaeher_api.Db.People.Lookup.list python_rasenmaeher_api.Settings.load_manifest
    python_rasenmaeher_api.Base.where_rows
do_http_healthcheck-reports_example =
    do_http_healthcheck-reports healthy world versions store store report 200 refl

-- A server whose state is the table of roles.
abbrev Table : Type 0
Table = String → String → Bool

abbrev admin_rep : RoleRep
admin_rep = record { id = "7"; name = "admin" }

abbrev set_role : Option String → RoleRep → Bool → Table → Table
set_role none rep b k = λ other role. k other role
set_role (some user) rep b k =
    λ other role. if other == user && role == rep.name then b else k other role

abbrev reps_of : Option String → Table → List RoleRep
reps_of none k = []
reps_of (some user) k = if k user "admin" then admin_rep ∷ [] else []

abbrev server : KeycloakAdmin Table
server = record {
  a_get_user = λ id. raise keycloak_error;
  a_get_users = λ email. pure [];
  a_create_user = λ payload. pure "id";
  a_update_user = λ id payload. pure tt;
  a_delete_user = λ id. pure tt;
  a_get_realm_roles = λ search. pure (admin_rep ∷ []);
  a_get_realm_roles_of_user = λ user k. (ok (reps_of user k), k);
  a_assign_realm_roles = λ user rep k. (ok tt, set_role user rep true k);
  a_delete_realm_roles_of_user = λ user rep k. (ok tt, set_role user rep false k);
  a_get_groups = pure [];
  a_create_group = λ name parent. pure "id";
  a_get_group = λ id. raise keycloak_error;
  a_group_user_add = λ user group. pure tt;
  a_create_initial_access_token = pure [];
}

named_reps : (b : Bool) → any (λ rep. rep.name == "admin") (if b then admin_rep ∷ [] else []) ≡ b
unfolding any
named_reps true = refl
named_reps false = refl

promised : RealmRoles server (λ k. k)
unfolding any
promised = record {
  search = λ k. (admin_rep ∷ [], k, refl, refl, λ user role. refl);
  of_user =
      λ user k. (reps_of (some user) k, k, refl, named_reps (k user "admin"), λ other role. refl);
  assign = λ user rep k. (set_role (some user) rep true k, refl, λ other role. refl);
  remove = λ user rep k. (set_role (some user) rep false k, refl, λ other role. refl);
}

abbrev client : KcClient Table
client = record { admin_role = none; product_initial_grps = none; server = λ user role. false }

abbrev kc_user : KcUserData
kc_user = record {
  productdata = record { uuid = "3"; callsign = "pelle"; x509cert = "" };
  roles = "admin" ∷ [];
  kc_id = some "kc3";
  kc_data = [];
}

check_user_roles-Adjusted_example :
    Adjusted server
      (λ k. k)
      promised
      client
      "kc3"
      (mem_text "admin" kc_user.roles)
      (check_user_roles server kc_user client)
check_user_roles-Adjusted_example =
    check_user_roles-Adjusted server (λ k. k) promised kc_user "kc3" client refl tt

abbrev well : Http ProductHealth
well = record {
  session = ok tt;
  request = λ method url body. some null;
  parse_obj = λ payload. some (record { healthy = true });
  refresh_ocsp = ok tt;
}

abbrev tak : List (String × Product)
tak = ("tak", record { certcn = "tak.test"; api = "https://tak.test" }) ∷ []

abbrev deployed : Manifest
deployed = record { dns = some "test.example"; deployment = some "test"; products = some tak }

all_ok_iff_example :
    (r : AllProductsHealthCheckResponse) × (request_healthcheck_services well settings ≡ ok r)
    × ((r.all_ok ≡ true)
        ↔ (IsGiven well settings (names tak) × All (AnswersHealthy well settings) (names tak)))
unfolding load_manifest
all_ok_iff_example = all_ok_iff well settings deployed tak refl refl refl

abbrev answer : Dict
answer = ("id", str "kc3") ∷ ("username", str "pelle") ∷ []

abbrev known : Person
known = record (person 3 "pelle") { extra = some [] }

-- CFSSL's database is locked at first.
abbrev locked_answer : Answer
locked_answer =
    answered (
      json (object (field "errors" (array (cons (object (field "code" (num 11000) end)) nil)) end)))

abbrev busy : Service
busy = record {
  session = λ attempt. ok tt;
  post = λ attempt url payload. if eqb attempt 0 then locked_answer else client_error;
}

cr_name-IsName_example : IsName 54 (cr_name (λ s. s) (λ s. "0a1b2c3d4e5f") "Ötter 1")
unfolding is_name_code
cr_name-IsName_example =
    cr_name-IsName (λ s. s) (λ s. "0a1b2c3d4e5f") "Ötter 1"
      (
        refl,
        (refl, (refl, (refl, (refl, (refl, (refl, (refl, (refl, (refl, (refl, (refl, tt))))))))))),
      )

update_from_kcdata_recorded_example :
    (p : Person) × (t : Store) × (update_from_kcdata world
        (λ n. "3")
        false
        answer
        (some known)
        true
        store
      ≡ (ok p, t))
    × (((true ≡ true) × Tells world (λ n. "3") false p t "kc3" answer)
        ⊎ ((true ≡ false) × (p ≡ person 3 "pelle") × (t ≡ store)))
unfolding lookup own_kcdata find_first without_keys mem_text
update_from_kcdata_recorded_example =
    update_from_kcdata_recorded world (λ n. "3") false answer "kc3" known (person 3 "pelle") [] true
      store refl refl refl
