-- ===== src/Startup/Console/Laws.antt =====
-- The exit codes of the health check on the command line, against the service's own responses.
use python_rasenmaeher_api.Base.{
  ℕ, eqb, eq_iff, ◌≡◌, inl, inr, true, false, arith, if◌then◌else◌, Bool-cases,
}
use python_rasenmaeher_api.Exec.{pure, ◌>>=◌, >>=-eq-ok, key_error, ok, err}
use python_rasenmaeher_api.Startup.Console.{do_http_healthcheck, dump_services, dump_basic}
use python_rasenmaeher_api.Web.Health.{
  basic_response, request_healthcheck, BasicHealthCheckResponse, AllProductsHealthCheckResponse,
  Versions,
}
use python_rasenmaeher_api.Db.{Store, World}
use python_rasenmaeher_api.Settings.{load_manifest}
use python_rasenmaeher_api.Json.{lookup}
use python_rasenmaeher_api.Db.People.{lift}
use python_rasenmaeher_api.Db.People.Lookup.{list}

report_word :
    (w : World) (v : Versions) (s t : Store) (basic : BasicHealthCheckResponse)
    → request_healthcheck w v s ≡ (ok basic, t)
    → basic.healthcheck ≡ "success"
unfolding request_healthcheck
report_word w v s t basic h =
    let (people, s1, e1, h1) =
      >>=-eq-ok (λ _. lift (load_manifest w.settings) >>= λ m. pure (basic_response v m)) t basic
        (list false false) s h in
    let (m, s2, e2, h2) =
      >>=-eq-ok (λ m. pure (basic_response v m)) t basic (lift (load_manifest w.settings)) s1 h1 in
    ground arith

exit_code :
    (basic : BasicHealthCheckResponse) (status : ℕ)
    → basic.healthcheck ≡ "success"
    → do_http_healthcheck false status (dump_basic basic)
      ≡ (if eqb status 200 then ok 0 else ok status)
unfolding do_http_healthcheck dump_basic lookup
exit_code basic status h = ground (arith, eq_iff basic.healthcheck "success")

exit_code_services :
    (r : AllProductsHealthCheckResponse) (status : ℕ)
    → do_http_healthcheck true status (dump_services r)
      ≡ (if eqb status 200 then (if r.all_ok then err key_error else ok 1) else ok status)
unfolding do_http_healthcheck dump_services lookup
exit_code_services r status = elim (Bool-cases r.all_ok) [
  | inl e ↦ ground arith
  | inr e ↦ ground arith
]

-- The exit code for every status, with the report of the service as the payload. With
-- `--services` and status 200, the command raises a `KeyError` where the report says that all
-- products are well, since the report has no "healthcheck", and exits with 1 where it does not, so
-- it never exits with 0. Without `--services` it exits with 0 on status 200 for every report that
-- the service returns. On any other status it exits with the status, with `--services` or without.
pub do_http_healthcheck-reports :
    (r : AllProductsHealthCheckResponse) (w : World) (v : Versions) (s t : Store)
    (basic : BasicHealthCheckResponse) (status : ℕ)
    → request_healthcheck w v s ≡ (ok basic, t)
    → (do_http_healthcheck true status (dump_services r)
        ≡ (if eqb status 200 then (if r.all_ok then err key_error else ok 1) else ok status))
      × (do_http_healthcheck false status (dump_basic basic)
          ≡ (if eqb status 200 then ok 0 else ok status))
do_http_healthcheck-reports r w v s t basic status h =
    (exit_code_services r status, exit_code basic status (report_word w v s t basic h))
