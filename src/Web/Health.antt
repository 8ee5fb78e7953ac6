-- ===== src/Web/Health.antt =====
-- src/rasenmaeher_api/web/api/healthcheck: is the service there, and are the products. The versions
-- come from the package and the environment.
pub mod Laws
use Prim.Native.String
use python_rasenmaeher_api.Base.{
  ℕ, zero, suc, ◌+◌, ◌-◌, ◌≤◌, ◌<◌, String, ◌≡◌, refl, sym, ap, ◌∙◌, ◌≢◌, ◌↔◌, ◌⊎◌, inl, inr, Bool,
  true, false, not, ◌&&◌, ◌||◌, Option, none, some, List, [], ◌∷◌, ◌++◌, map, arith, ◌==◌, eq_iff,
  eq_refl, eqb, ltb, if◌then◌else◌, eqb_refl, Bool-cases, Option-cases, is_some, All, find_first,
  where_rows, update_rows, any,
}
use python_rasenmaeher_api.Exec.{
  Error, not_found, deleted, callsign_reserved, pool_inactive, forbidden_operation, token_reuse,
  backend_error, integrity_error, runtime_error, value_error, key_error, unbound_local_error,
  attribute_error, file_exists_error, http, Result, ok, err, is_err, is_not_found, is_value_error,
  is_http_exception, status_code, Exec, pure, raise, gets, or_raise, on_error, except_for, ◌>>=◌,
  ◌>>◌, modify, raise_if,
}
use python_rasenmaeher_api.Text.{before_char}
use python_rasenmaeher_api.Settings.{RmSettings, load_manifest, Manifest}
use python_rasenmaeher_api.Db.People.Lookup.{list}
use python_rasenmaeher_api.Products.{
  collected, get_from_all_products, method_to_all_products, AllResponses, Http,
}
use python_rasenmaeher_api.Db.{Action, World}
use python_rasenmaeher_api.Db.People.{lift}

pub record BasicHealthCheckResponse : Type 0 where
  pub healthcheck : String
  pub dns : String
  pub deployment : String
  pub version : String
  pub rm_version : String

pub record AllProductsHealthCheckResponse : Type 0 where
  pub all_ok : Bool
  pub products : List (String × Bool)

-- libpvarki's `ProductHealthCheckResponse`, as far as it is read
pub record ProductHealth : Type 0 where
  pub healthy : Bool

pub record Versions : Type 0 where
  pub rm_version : String
  pub release_tag : Option String
  pub release_status : Option String

-- `os.environ.get("RELEASE_TAG", "undefined")`, and the status behind a dash
abbrev pub tag_of : Option String → String
tag_of none = "undefined"
tag_of (some tag) = tag

abbrev pub deployment_version : Versions → String
deployment_version v = elim v.release_status [
  | none ↦ tag_of v.release_tag
  | some status ↦
      if status == ""
      then tag_of v.release_tag
      else String.◌++◌ (tag_of v.release_tag) (String.◌++◌ "-" status)
]

abbrev pub names_of : Option String → String × String
names_of none = ("DNS not defined in manifest", "DNS not defined in manifest")
names_of (some dns) = (dns, before_char 46 dns)

abbrev pub basic_response : Versions → Manifest → BasicHealthCheckResponse
basic_response v manifest = record {
  healthcheck = "success";
  dns = (names_of manifest.dns).0;
  deployment = (names_of manifest.dns).1;
  version = deployment_version v;
  rm_version = v.rm_version;
}

-- The first person is read from the database, which does not change it.
unfoldable pub request_healthcheck : World → Versions → Action BasicHealthCheckResponse
unfolding list load_manifest before_char
request_healthcheck w v = do
  list false false
  manifest ← lift (load_manifest w.settings)
  pure (basic_response v manifest)

-- A product counts as healthy when it answered and says so.
abbrev pub is_healthy : Option ProductHealth → Bool
is_healthy none = false
is_healthy (some response) = response.healthy

-- The loop over the statuses, from the response so far; the names differ.
unfoldable pub count_status :
    List (String × Option ProductHealth)
    → AllProductsHealthCheckResponse
    → AllProductsHealthCheckResponse
count_status [] ret = ret
count_status ((name, response) ∷ statuses) ret = count_status statuses (record {
  all_ok = ret.all_ok && is_healthy response;
  products = ret.products ++ (name, is_healthy response) ∷ [];
})

abbrev pub not_ok : AllProductsHealthCheckResponse
not_ok = record { all_ok = false; products = [] }

-- `if not statuses`
unfoldable pub report_statuses :
    List (String × Option ProductHealth) → AllProductsHealthCheckResponse
unfolding count_status
report_statuses [] = not_ok
report_statuses (status ∷ statuses) =
    count_status (status ∷ statuses) (record { all_ok = true; products = [] })

module _ (http : Http ProductHealth) (settings : RmSettings) where
  abbrev pub report_responses :
      Result (AllResponses ProductHealth) → Result AllProductsHealthCheckResponse
  report_responses (err e) = err e
  report_responses (ok (collected statuses)) = ok (report_statuses statuses)
  report_responses (ok _) = ok not_ok

  unfoldable pub request_healthcheck_services : Result AllProductsHealthCheckResponse
  unfolding method_to_all_products report_statuses
  request_healthcheck_services =
      report_responses (get_from_all_products http settings "api/v1/healthcheck" true)
