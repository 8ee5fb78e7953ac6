-- ===== src/Web/Descriptions.antt =====
-- src/rasenmaeher_api/web/api/descriptions.py: the products' descriptions of themselves. The schema of
-- a response is that of the client, whose parser refuses other bodies. `refused` is the exception
-- of `MTLSHeader(auto_error=True)` for a request without a certificate.
pub mod Laws
use Prim.Native.String
use python_rasenmaeher_api.Base.{
  ℕ, zero, suc, ◌+◌, ◌-◌, ◌≤◌, ◌<◌, String, ◌≡◌, refl, sym, ap, ◌∙◌, ◌≢◌, ◌↔◌, ◌⊎◌, inl, inr, Bool,
  true, false, not, ◌&&◌, ◌||◌, Option, none, some, List, [], ◌∷◌, ◌++◌, map, arith, ◌==◌, eq_iff,
  eq_refl, eqb, ltb, if◌then◌else◌, eqb_refl, Bool-cases, Option-cases, is_some, All, find_first,
  where_rows, update_rows, any,
}
use python_rasenmaeher_api.Exec.{
  Error, not_found, deleted, callsign_reserved, pool_inactive, forbidden_operation, token_reuse,
  backend_error, integrity_error, runtime_error, value_error, key_error, unbound_local_error,
  attribute_error, file_exists_error, http, Result, ok, err, is_err, is_not_found, is_value_error,
  is_http_exception, status_code, Exec, pure, raise, gets, or_raise, on_error, except_for, ◌>>=◌,
  ◌>>◌, modify, raise_if,
}
use python_rasenmaeher_api.Db.{Action, World}
use python_rasenmaeher_api.Db.People.{lift}
use python_rasenmaeher_api.Products.{
  AllResponses, collected, Http, get_from_all_products, get_from_product, method_to_all_products,
  method_to_product,
}
use python_rasenmaeher_api.Settings.{RmSettings}
use python_rasenmaeher_api.Web.Auth.{Request, valid_user}

pub record ProductDescription : Type 0 where
  pub shortname : String
  pub title : String
  pub icon : Option String
  pub description : String
  pub language : String

pub data ComponentType : Type 0 where
  link markdown component : ComponentType

pub record ProductComponent : Type 0 where
  pub type : ComponentType
  pub ref : String

pub record ProductDescriptionExtended : Type 0 where
  pub shortname : String
  pub title : String
  pub icon : Option String
  pub description : String
  pub language : String
  pub docs : Option String
  pub component_ref : ProductComponent

module _ {A : Type 0} where
  -- `[… for res in responses.values() if res]`
  unfoldable pub present : List (String × Option A) → List A
  present [] = []
  present ((name, none) ∷ responses) = present responses
  present ((name, some res) ∷ responses) = res ∷ present responses

  -- `if responses is None`
  abbrev pub listed : Result (AllResponses A) → Result (List A)
  listed (err e) = err e
  listed (ok (collected responses)) = ok (present responses)
  listed (ok _) = err value_error

module _ (client : Http ProductDescription) (settings : RmSettings) where
  unfoldable pub list_product_descriptions : String → Result (List ProductDescription)
  unfolding present method_to_all_products
  list_product_descriptions language =
      listed
        (get_from_all_products client settings (String.◌++◌ "api/v1/description/" language) true)

  unfoldable pub get_product_description : String → String → Result (Option ProductDescription)
  unfolding method_to_product
  get_product_description language product =
      get_from_product client settings product (String.◌++◌ "api/v1/description/" language)

module _ (client : Http ProductDescriptionExtended) (settings : RmSettings) where
  unfoldable pub list_product_descriptions_extended :
      String → Result (List ProductDescriptionExtended)
  unfolding present method_to_all_products
  list_product_descriptions_extended language =
      listed
        (get_from_all_products client settings (String.◌++◌ "api/v2/description/" language) true)

  unfoldable pub get_product_description_extended :
      String → String → Result (Option ProductDescriptionExtended)
  unfolding method_to_product
  get_product_description_extended language product =
      get_from_product client settings product (String.◌++◌ "api/v2/description/" language)

  -- The dependencies of the administrators' router and routes.
  abbrev pub require_admin : World → Error → Request → Action (Unit {0})
  require_admin w refused request = do
    raise_if (not (is_some request.mtls)) refused
    valid_user w true ("admin" ∷ []) request
    pure tt

  unfoldable pub list_admin_product_descriptions_extended :
      World → Error → Request → String → Action (List ProductDescriptionExtended)
  unfolding valid_user present method_to_all_products
  list_admin_product_descriptions_extended w refused request language = do
    require_admin w refused request
    lift (
        listed (
          get_from_all_products client settings (String.◌++◌ "api/v2/admin/description/" language)
            true))

  unfoldable pub get_admin_product_description_extended :
      World → Error → Request → String → String → Action (Option ProductDescriptionExtended)
  unfolding valid_user method_to_product
  get_admin_product_description_extended w refused request language product = do
    require_admin w refused request
    lift (
        get_from_product client settings product (String.◌++◌ "api/v2/admin/description/" language))
