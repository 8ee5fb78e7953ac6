-- ===== src/Tests/World.antt =====
-- A small deployment with one product, and a database with a few rows.
use python_rasenmaeher_api.Base.{
  ℕ, ◌+◌, String, true, none, some, [], ◌∷◌, ◌==◌, ltb, if◌then◌else◌,
}
use python_rasenmaeher_api.Exec.{ok}
use python_rasenmaeher_api.Json.{Dict, bool, str, num}
use python_rasenmaeher_api.Settings.{RmSettings}
use python_rasenmaeher_api.Db.{
  Person, Role, EnrollmentPool, Enrollment, pending, LoginCode, Store, World, ReasonFlag,
}
use python_rasenmaeher_api.Web.Auth.{Request}

abbrev pub settings : RmSettings
settings = record {
  manifest = some (record {
    dns = some "test.example";
    deployment = some "test";
    products = some (("tak", record { certcn = "tak.test"; api = "https://tak.test" }) ∷ []);
  });
  mtls_client_cert_cn = "rasenmaeher";
  kc_enabled = true;
  callsign_validity_secret = none;
  code_size = 2;
  code_avoid_confusion = true;
}

abbrev pub withdrawn : ReasonFlag
withdrawn = record { name = "privilege_withdrawn"; value = "privilegeWithdrawn" }

abbrev pub claims : Dict
claims = ("sub", str "PELLE") ∷ []

abbrev pub payload : Dict
payload = ("nonce", str "N1") ∷ ("anon_admin_session", bool true) ∷ ("iat", num 5) ∷ []

abbrev pub world : World
world = record {
  settings = settings;
  lower = λ s. if s == "PELLE" then "pelle" else s;
  uuid4 = λ n. 100 + n;
  utcnow = λ n. 1000 + n;
  randbelow = λ n k. if ltb n k then n else 0;
  parse_uuid = λ s. none;
  csr_subject = λ s. none;
  create_csr = λ n callsign. ok "csr";
  convert_pem_to_pkcs12 = λ cert key. ok tt;
  get_ca = λ n. ok "ca";
  get_bundle = λ n cert. ok "bundle";
  sign_csr = λ n csr. ok "cert";
  revoke_pem = λ n reason. ok tt;
  reason_flags = withdrawn ∷ [];
  privilege_withdrawn = withdrawn;
  create_kc_user = λ n p. ok none;
  user_revoked = λ n p. ok tt;
  issue = λ n d. "jwt";
  decode = λ n token. ok payload;
}

abbrev pub person : ℕ → String → Person
person pk callsign = record {
  pk = pk;
  callsign = callsign;
  extra = none;
  deleted = none;
  revoke_reason = none;
}

abbrev pub admin_role : Role
admin_role = record { pk = 10; user = 1; role = "admin" }

abbrev pub pool : EnrollmentPool
pool = record {
  pk = 20;
  created = 0;
  deleted = none;
  owner = 1;
  active = true;
  extra = none;
  invitecode = "POOL";
}

abbrev pub enrollment : Enrollment
enrollment = record {
  pk = 30;
  deleted = none;
  approvecode = "ABCD";
  callsign = "otter";
  decided_on = none;
  decided_by = none;
  person = none;
  pool = none;
  state = pending;
  extra = none;
  csr = none;
}

abbrev pub logincode : LoginCode
logincode = record {
  pk = 40;
  deleted = none;
  code = "LOGIN";
  auditmeta = [];
  used_on = none;
  claims = claims;
}

abbrev pub store : Store
store = record {
  persons = person 1 "boss" ∷ person 2 "anon_admin" ∷ person 3 "pelle" ∷ [];
  roles = admin_role ∷ [];
  pools = pool ∷ [];
  enrollments = enrollment ∷ [];
  logincodes = logincode ∷ [];
  seentokens = [];
  files = [];
  tasks = [];
  audits = [];
  calls = 0;
}

-- A request with a certificate.
abbrev pub request : String → Request
request callsign = record { mtls = some (("CN", callsign) ∷ []); jwt = none }
