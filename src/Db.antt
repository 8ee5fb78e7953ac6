-- ===== src/Db.antt =====
-- The state of the service: the tables of src/rasenmaeher_api/db, the files under the people
-- directory, the background tasks that were started and the audit log; and the world around it.
-- Primary keys (UUIDs) and times are numbers. The bookkeeping columns `updated` and, but for
-- pools, `created` are left out, and so is `certspath`, which is the key under a fixed path.
pub mod Codes
pub mod People
pub mod Pools
pub mod Enrollments
pub mod LoginCodes
pub mod Nonces
use python_rasenmaeher_api.Base.{
  ℕ, suc, ◌+◌, String, Bool, true, false, not, ◌&&◌, Option, none, some, List, [], ◌∷◌, ◌++◌,
  is_some, if◌then◌else◌,
}
use python_rasenmaeher_api.Exec.{
  Error, not_found, deleted, Result, ok, err, Exec, pure, raise, gets, raise_if, modify, ◌>>=◌,
  ◌>>◌,
}
use python_rasenmaeher_api.Json.{Dict}
use python_rasenmaeher_api.Settings.{RmSettings}

-- A column that may be `null`, such as `extra`, is an `Option`.
pub record Person : Type 0 where
  pub pk : ℕ
  pub callsign : String
  pub extra : Option Dict
  pub deleted : Option ℕ
  pub revoke_reason : Option String

pub record Role : Type 0 where
  pub pk : ℕ
  pub user : ℕ
  pub role : String

pub record EnrollmentPool : Type 0 where
  pub pk : ℕ
  pub created : ℕ
  pub deleted : Option ℕ
  pub owner : ℕ
  pub active : Bool
  pub extra : Option Dict
  pub invitecode : String

pub data EnrollmentState : Type 0 where
  pending approved rejected : EnrollmentState

pub record Enrollment : Type 0 where
  pub pk : ℕ
  pub deleted : Option ℕ
  pub approvecode : String
  pub callsign : String
  pub decided_on : Option ℕ
  pub decided_by : Option ℕ
  pub person : Option ℕ
  pub pool : Option ℕ
  pub state : EnrollmentState
  pub extra : Option Dict
  pub csr : Option String

pub record LoginCode : Type 0 where
  pub pk : ℕ
  pub deleted : Option ℕ
  pub code : String
  pub auditmeta : Dict
  pub used_on : Option ℕ
  pub claims : Dict

pub record SeenToken : Type 0 where
  pub pk : ℕ
  pub deleted : Option ℕ
  pub token : String
  pub auditmeta : Dict

-- The directory of a person: "mtls.csr", "mtls.key", "mtls.pem", "mtls.pfx".
pub record Files : Type 0 where
  pub owner : ℕ
  pub csr : Option String
  pub key : Bool
  pub cert : Option String
  pub pfx : Bool

-- What `TaskMaster` was given to run.
pub data Task : Type 0 where
  create_pfx user_created user_promoted user_demoted : ℕ → Task
  refresh_ocsp : Task

-- One record of `LOGGER.audit`, without the context that is read off the request.
pub data Outcome : Type 0 where
  success failure : Outcome

pub record AuditEvent : Type 0 where
  pub action : String
  pub outcome : Outcome
  pub target : Option String
  pub error_code : Option String

-- `calls` counts the calls of the outside world.
pub record Store : Type 0 where
  pub persons : List Person
  pub roles : List Role
  pub pools : List EnrollmentPool
  pub enrollments : List Enrollment
  pub logincodes : List LoginCode
  pub seentokens : List SeenToken
  pub files : List Files
  pub tasks : List Task
  pub audits : List AuditEvent
  pub calls : ℕ

abbrev pub Action : Type 0 → Type 0
Action = Exec Store

-- `cryptography.x509.ReasonFlags` has a list of such members.
pub record ReasonFlag : Type 0 where
  pub name : String
  pub value : String

-- What is not part of the database code. A function of a number answers the call of that number,
-- so each call may have another result.
pub record World : Type 0 where
  pub settings : RmSettings
  -- PostgreSQL's `lower`
  pub lower : String → String
  -- `uuid.uuid4()`, `datetime.now(UTC)` and the index that `secrets.choice` draws below a bound
  pub uuid4 : ℕ → ℕ
  pub utcnow : ℕ → ℕ
  pub randbelow : ℕ → ℕ → ℕ
  -- `b64_to_uuid` and `uuid.UUID`; `none` is their `ValueError`
  pub parse_uuid : String → Option ℕ
  -- the subject of a PEM request as RFC 4514 text; `none` is the parser's `ValueError`
  pub csr_subject : String → Option String
  -- `async_create_keypair` and `async_create_client_csr` for a common name
  pub create_csr : ℕ → String → Result String
  -- `convert_pem_to_pkcs12` of a certificate, with or without a key
  pub convert_pem_to_pkcs12 : String → Bool → Result (Unit {0})
  -- the certificate backend
  pub get_ca : ℕ → Result String
  pub get_bundle : ℕ → String → Result String
  pub sign_csr : ℕ → String → Result String
  pub revoke_pem : ℕ → ReasonFlag → Result (Unit {0})
  pub reason_flags : List ReasonFlag
  pub privilege_withdrawn : ReasonFlag
  -- telling Keycloak about a new person: the `extra` column afterwards, if it was changed
  pub create_kc_user : ℕ → Person → Result (Option Dict)
  -- telling the products and Keycloak about a revoked person
  pub user_revoked : ℕ → Person → Result (Unit {0})
  -- multikeyjwt's `Issuer.issue` and `Verifier.decode`
  pub issue : ℕ → Dict → String
  pub decode : ℕ → String → Result Dict

-- The outcome of a call of the world, given its number.
unfoldable pub outside : {A : Type 0} → (ℕ → Result A) → Action A
outside f s = (f s.calls, record s { calls = suc s.calls })

unfoldable pub call : {A : Type 0} → (ℕ → A) → Action A
call f s = (ok (f s.calls), record s { calls = suc s.calls })

-- A row that was looked for: `NotFound` without one, `Deleted` for a deleted one.
unfoldable pub checked : {A : Type 0} → (A → Option ℕ) → Bool → Option A → Action A
checked deleted_on allow_deleted none s = (err not_found, s)
checked deleted_on allow_deleted (some row) s =
    (if is_some (deleted_on row) && not allow_deleted then err deleted else ok row, s)

unfoldable pub create_task : Task → Action (Unit {0})
create_task task s = (ok tt, record s { tasks = s.tasks ++ task ∷ [] })

unfoldable pub audit : String → Outcome → Option String → Option String → Action (Unit {0})
audit action outcome target error_code s = (
  ok tt,
  record s {
    audits =
        s.audits
        ++ record { action = action; outcome = outcome; target = target; error_code = error_code }
          ∷ [];
  },
)
