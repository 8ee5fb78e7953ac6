-- ===== src/Web/Descriptions/Laws.antt =====
-- What the products are asked for when their descriptions are listed.
use python_rasenmaeher_api.Base.{
  String, ◌≡◌, refl, ap, ◌∙◌, inl, inr, true, Option, none, some, List, [], ◌∷◌, map, arith,
  Option-cases, All,
}
use python_rasenmaeher_api.Exec.{Error, ok, >>=-ok}
use Prim.Native.String
use python_rasenmaeher_api.Db.{Store, World}
use python_rasenmaeher_api.Json.{lookup}
use python_rasenmaeher_api.Db.People.{lift}
use python_rasenmaeher_api.Products.{
  get_from_all_products, Http, names, handle_one, method_to_product, method_to_all_products,
  products_of, parsed,
}
use python_rasenmaeher_api.Settings.{RmSettings, Product, Manifest, load_manifest}
use python_rasenmaeher_api.Web.Auth.{Request}
use python_rasenmaeher_api.Web.Descriptions.{
  present, listed, list_product_descriptions, list_product_descriptions_extended, require_admin,
  list_admin_product_descriptions_extended, ProductDescription, ProductDescriptionExtended,
}

module _ {A : Type 0} (client : Http A) where
  -- The answer of one product to a GET request of its own API.
  abbrev pub answer : RmSettings → String → Product → Option A
  answer settings path product =
      parsed client settings (client.request "get" (String.◌++◌ product.api path) none)

  -- The descriptions that the products answer with, one after the other.
  unfoldable pub answers : RmSettings → String → List (String × Product) → List A
  answers settings path [] = []
  answers settings path ((name, product) ∷ products) =
      let rest = answers settings path products in
      elim (answer settings path product) [ none ↦ rest | some res ↦ res ∷ rest ]

  -- The entry is the one that its name finds.
  abbrev pub IsFound : List (String × Product) → String × Product → Type 0
  IsFound all (name, product) = lookup name all ≡ some product

  present-answers :
      (settings : RmSettings) (path name : String) (product : Product)
      (products : List (String × Product)) (rs : List (String × Option A))
      → present rs ≡ answers settings path products
      → present ((name, answer settings path product) ∷ rs)
        ≡ answers settings path ((name, product) ∷ products)
  unfolding present answers
  present-answers settings path name product products rs h =
      elim (Option-cases (answer settings path product)) [
        | inl e ↦ ground arith
        | inr (res, e) ↦ ground arith
      ]

  module _ (settings : RmSettings) (path : String) (all : List (String × Product))
      (has : products_of settings ≡ some all) (session : client.session ≡ ok tt) where
    handle_one-found :
        (name : String) (product : Product)
        → lookup name all ≡ some product
        → handle_one client settings "get" path none name ≡ (name, answer settings path product)
    unfolding handle_one method_to_product
    handle_one-found name product found = ground arith

    present-handle_one :
        (products : List (String × Product))
        → All (IsFound all) products
        → present (map (handle_one client settings "get" path none) (names products))
          ≡ answers settings path products
    unfolding present answers names
    present-handle_one [] found = refl
    present-handle_one ((name, product) ∷ products) (found, later) =
        ap (λ r. present (r ∷ map (handle_one client settings "get" path none) (names products)))
          (handle_one-found name product found)
        ∙ present-answers settings path name product products _ (present-handle_one products later)

  -- The products can be asked: the manifest has them, each under its own name, their revocation lists
  -- are refreshed, and there is a session with the service's certificate.
  pub record CanAsk (settings : RmSettings) (all : List (String × Product)) : Type 0 where
    pub manifest : Manifest
    pub loaded : settings.manifest ≡ some manifest
    pub products : manifest.products ≡ some all
    pub found : All (IsFound all) all
    pub refreshed : client.refresh_ocsp ≡ ok tt
    pub session : client.session ≡ ok tt

  listed-answers :
      (settings : RmSettings) (path : String) (all : List (String × Product))
      → CanAsk settings all
      → listed (get_from_all_products client settings path true) ≡ ok (answers settings path all)
  unfolding method_to_all_products load_manifest present
  listed-answers settings path all can =
      let l = can.loaded in
      let p = can.products in
      let r = can.refreshed in
      let has : products_of settings ≡ some all = ground arith in
      let rows = present-handle_one settings path all has can.session all can.found in ground arith

-- Where the products can be asked, each list of descriptions is made of what the products answer to
-- a GET request of their own API, in the manifest's order and without the products that fail, have
-- no body or have one that the schema refuses. The first list asks at `api/v1/description/` with the
-- language, the extended one at `api/v2/description/`, and the administrators' one, for a request
-- that passes its checks, at `api/v2/admin/description/`.
pub list_product_descriptions-answers :
    (client : Http ProductDescription) (extended : Http ProductDescriptionExtended)
    (settings : RmSettings) (all : List (String × Product)) (language : String) (w : World)
    (refused : Error) (request : Request) (s t : Store)
    → CanAsk client settings all
    → CanAsk extended settings all
    → require_admin extended settings w refused request s ≡ (ok tt, t)
    → (list_product_descriptions client settings language
        ≡ ok (answers client settings (String.◌++◌ "api/v1/description/" language) all))
      × (list_product_descriptions_extended extended settings language
          ≡ ok (answers extended settings (String.◌++◌ "api/v2/description/" language) all))
      × (list_admin_product_descriptions_extended extended settings w refused request language s ≡ (
        ok (answers extended settings (String.◌++◌ "api/v2/admin/description/" language) all),
        t,
      ))
unfolding list_product_descriptions list_product_descriptions_extended
    list_admin_product_descriptions_extended
list_product_descriptions-answers client extended settings all language w refused request s t can
      can' passed =
    (
      listed-answers client settings (String.◌++◌ "api/v1/description/" language) all can,
      listed-answers extended settings (String.◌++◌ "api/v2/description/" language) all can',
      >>=-ok (require_admin extended settings w refused request)
            (λ _. lift (
              listed (
                get_from_all_products extended settings
                  (String.◌++◌ "api/v2/admin/description/" language) true)))
            s tt t passed
          ∙ ap (λ r. (r, t))
              (listed-answers extended settings (String.◌++◌ "api/v2/admin/description/" language)
                all can'),
    )
