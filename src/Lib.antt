-- ===== src/Lib.antt =====
-- RASENMAEHER API: the service that enrolls people of a deployment, gives them certificates and
-- roles, and tells the products about them.
--
-- A request passes the checks of who calls (Web.Auth, src/rasenmaeher_api/web/api/middleware) and
-- reaches a handler (Web.Tokens, Web.Enrollment, Web.InviteCodes, Web.FirstUser, Web.People,
-- Web.Validity, Web.Product, for the files views.py and callsign_validity.py under
-- src/rasenmaeher_api/web/api).
-- The handler calls the tables of src/rasenmaeher_api/db (Db.People, Db.Enrollments, Db.Pools,
-- Db.LoginCodes, Db.Nonces), which share the state `Store` of the module Db, and writes the audit
-- log, which is part of that state.
--
-- * Base has the names, Boolean tests and list operations that all modules share; Exec the
--   exceptions of src/rasenmaeher_api/db/errors.py and the monad of methods that change the state
--   and may raise; Exec.Keeps the rules for what such a method leaves alone.
-- * Json is the JSON values of claims and columns; Settings the part of
--   src/rasenmaeher_api/rmsettings.py that the other modules read; Cert the checks on certificate
--   requests and revocation reasons.
-- * A function bears the name of the Python method or function, with the guards in the order of
--   the code; a part of a function that is named on its own says so above it. The modules named
--   Laws, Table, Frame, Subject and Guard, and those under Web.Enrollment and
--   Db.Enrollments, have the proofs; Tests applies each theorem to a small database.
--
-- An action keeps what it wrote when it raises, since the code commits at each write. Primary
-- keys and times are numbers. A generated code is drawn at most once more than
-- `code_max_attempts` times, as in the code; the loop is recursion on the attempts that are left.
--
-- Beside the tables stand the clients of other services. Products models productapihelpers.py and
-- Keycloak kchelpers.py, with the server behind it as a state; Db.People.Integration has what
-- people need of both (db/people.py), and Db.People.Linked the revocation that uses it. Cert.Cfssl
-- and Cert.CertManager model the certificate backends under cert. Startup has the start of the
-- database (db/middleware.py), the certificate of the service (mtlsinit.py), the keys for tokens
-- (jwtinit.py) and the command line (console.py). Web.Health, Web.Instructions, Web.Descriptions,
-- Web.Enduser and Web.Product.Endpoints are handlers that use them; Text has Python's operations
-- on texts.
--
-- A loop that waits for another service is recursion on fuel and returns `none` when the fuel is
-- used up. The start of the database has one more than the limit of retries; `mtls_init`,
-- `jwt_init` and the calls that CFSSL's lock repeats take as many rounds as the lock is held, and
-- one.
--
-- What is not Python of this repository is a field of `World`, which is a parameter: UUIDs, the
-- clock, the random source, PostgreSQL's `lower`, the X.509 parser, the certificate backend,
-- Keycloak and the products, and the issuer and verifier of tokens. A call of it is numbered, so
-- that each may have another result. For Keycloak and the products `World` gives the outcome of the
-- whole telling, so that the tables can be read without their clients; Db.People.Linked has this
-- repository's functions in the place of that outcome.
--
-- Left out: background tasks run (only that they were started is kept), response texts and
-- cookies, log lines other than the audit log, and the context that an audit record reads off the
-- request, which Web.Audit models on its own. The tables know no SQL: a query is a search of the
-- rows. The utility and check-auth endpoints, the pydantic schemas of requests and the wiring of
-- the routers are not modelled.
pub mod Base
pub mod Exec
pub mod Json
pub mod Settings
pub mod Products
pub mod Keycloak
pub mod Db
pub mod Cert
pub mod Web
pub mod Startup
pub mod Tests
pub mod Text
