-- ===== src/Web/Health/Laws.antt =====
-- When the report on the products says that all is well.
use python_rasenmaeher_api.Base.{
  refl, some, ◌↔◌, map, String, ◌≡◌, true, Option, none, List, [], ◌∷◌, arith, All,
}
use python_rasenmaeher_api.Web.Health.{
  request_healthcheck_services, report_statuses, ProductHealth, count_status, is_healthy,
  AllProductsHealthCheckResponse,
}
use python_rasenmaeher_api.Products.{
  names, method_to_all_products, handle_one, or_none, Http, method_to_product,
}
use python_rasenmaeher_api.Settings.{load_manifest, Product, Manifest, RmSettings}
use python_rasenmaeher_api.Exec.{ok}

count_status-all_ok :
    (statuses : List (String × Option ProductHealth)) (ret : AllProductsHealthCheckResponse)
    → (count_status statuses ret).all_ok ≡ true
    → (ret.all_ok ≡ true) × All (λ status. is_healthy status.1 ≡ true) statuses
unfolding count_status
count_status-all_ok [] ret h = (h, tt)
count_status-all_ok ((name, response) ∷ statuses) ret h =
    let (before, after) = count_status-all_ok statuses _ h in ground (arith, before, after)

all_ok-count_status :
    (statuses : List (String × Option ProductHealth)) (ret : AllProductsHealthCheckResponse)
    → ret.all_ok ≡ true
    → All (λ status. is_healthy status.1 ≡ true) statuses
    → (count_status statuses ret).all_ok ≡ true
unfolding count_status
all_ok-count_status [] ret h all = h
all_ok-count_status ((name, response) ∷ statuses) ret h all =
    all_ok-count_status statuses _ (ground arith) all.1

module _ (client : Http ProductHealth) (settings : RmSettings) where
  -- The product of a name answered, and its answer says that it is healthy.
  abbrev pub AnswersHealthy : String → Type 0
  AnswersHealthy name =
      is_healthy (
        or_none client settings
          (method_to_product client settings name "get" "api/v1/healthcheck" none))
      ≡ true

  abbrev pub IsGiven : List String → Type 0
  IsGiven [] = ⊥
  IsGiven (name ∷ all) = Unit

  responses : List String → List (String × Option ProductHealth)
  responses = map (handle_one client settings "get" "api/v1/healthcheck" none)

  healthy_names :
      (all : List String)
      → All (λ status. is_healthy status.1 ≡ true) (responses all) ↔ All AnswersHealthy all
  unfolding responses handle_one
  healthy_names [] = (λ h. tt, λ h. tt)
  healthy_names (name ∷ all) =
      let (there, back) = healthy_names all in (λ h. (h.0, there h.1), λ h. (h.0, back h.1))

  report_names :
      (all : List String)
      → ((report_statuses (responses all)).all_ok ≡ true) ↔ (IsGiven all × All AnswersHealthy all)
  unfolding report_statuses responses
  report_names [] = (λ h. absurd (ground arith), λ h. absurd h.0)
  report_names (name ∷ all) = (
    λ h. (
      tt,
      (healthy_names (name ∷ all)).0
          (count_status-all_ok (responses (name ∷ all)) (record { all_ok = true; products = [] })
            h).1,
    ),
    λ h.
        all_ok-count_status (responses (name ∷ all)) (record { all_ok = true; products = [] }) refl
          ((healthy_names (name ∷ all)).1 h.1),
  )

  -- Where the manifest has products and the OCSP refresh works, the report on the services is
  -- returned, and it says that all is well if and only if there is a product and each product
  -- answered that it is healthy: a product that failed in any way counts as unhealthy.
  pub all_ok_iff :
      (manifest : Manifest) (products : List (String × Product))
      → load_manifest settings ≡ ok manifest
      → manifest.products ≡ some products
      → client.refresh_ocsp ≡ ok tt
      → (r : AllProductsHealthCheckResponse) × (request_healthcheck_services client settings ≡ ok r)
        × ((r.all_ok ≡ true) ↔ (IsGiven (names products) × All AnswersHealthy (names products)))
  unfolding request_healthcheck_services method_to_all_products responses
  all_ok_iff manifest products loaded has refreshed =
      (report_statuses (responses (names products)), ground arith, report_names (names products))
