-- ===== src/Web/Product/Endpoints.antt =====
-- The other endpoints of src/rasenmaeher_api/web/api/product/views.py: revocation, renewal, readiness,
-- the token for Keycloak, interoperation and the proxy. The certificate library gives the common
-- name of a request; `describe` is the text of an exception.
use Prim.Native.String
use python_rasenmaeher_api.Base.{
  ℕ, String, Bool, true, false, not, Option, none, some, List, [], ◌∷◌, ◌==◌, if◌then◌else◌,
  is_some,
}
use python_rasenmaeher_api.Exec.{
  is_cert_error, Error, key_error, http, Result, ok, err, Exec, pure, raise, or_raise, ◌>>=◌, ◌>>◌,
  raise_if,
}
use python_rasenmaeher_api.Db.{ReasonFlag, Person, World, Action}
use python_rasenmaeher_api.Keycloak.{client_access_token, KeycloakAdmin, UserCrudRequest}
use python_rasenmaeher_api.Web.Auth.{DnDict, get_dn}
use python_rasenmaeher_api.Cert.{named, contains_text, validate_reason}
use python_rasenmaeher_api.Settings.{valid_product_cns, Product}
use python_rasenmaeher_api.Json.{Dict, Json, mem_text, lookup}
use python_rasenmaeher_api.Web.Product.{CertificatesResponse, is_product_name, csr_common}
use python_rasenmaeher_api.Products.{post_to_product, Http, products_of, method_to_product}
use python_rasenmaeher_api.Db.People.{lift}
use python_rasenmaeher_api.Db.People.Integration.{in_keycloak, in_store, Linked}

-- libpvarki's `OperationResultResponse`
pub record OperationResultResponse : Type 0 where
  pub success : Bool
  pub extra : Option String
  pub error : Option String

abbrev pub succeeded : OperationResultResponse
succeeded = record { success = true; extra = none; error = none }

abbrev pub failed_with : String → OperationResultResponse
failed_with text = record { success = false; extra = none; error = some text }

-- `signal_ready`
unfoldable pub signal_ready : Action OperationResultResponse
signal_ready =
    pure (record { success = true; extra = some "This was actually NO-OP"; error = none })

module _ (w : World) where
  -- `payload.get("CN") not in valid_product_cns`
  unfoldable pub require_product : DnDict → Action (Unit {0})
  unfolding get_dn mem_text valid_product_cns
  require_product dn = do
    cns ← lift (valid_product_cns w.settings)
    raise_if (not (is_product_name cns (get_dn "CN" dn))) (http 403)

  -- `revoke` is the certificate backend's call for a certificate and a reason.
  unfoldable pub revoke_pem : (String → ReasonFlag → Result (Unit {0})) → String → Action (Unit {0})
  unfolding validate_reason
  revoke_pem revoke cert = do
    reason ← lift (validate_reason w (named "unspecified"))
    lift (revoke cert reason)

  abbrev pub cert_error_reported :
      (Error → String) → Result (Unit {0}) → Result OperationResultResponse
  cert_error_reported describe (ok _) = ok succeeded
  cert_error_reported describe (err e) =
      if is_cert_error e then ok (failed_with (describe e)) else err e

  unfoldable pub revoke_cert :
      (Error → String)
      → (String → ReasonFlag → Result (Unit {0}))
      → DnDict
      → String
      → Action OperationResultResponse
  unfolding require_product revoke_pem is_cert_error
  revoke_cert describe revoke dn cert = do
    require_product dn
    outcome ← (λ s. let (r, t) = revoke_pem revoke cert s in (ok r, t))
    lift (cert_error_reported describe outcome)

  -- Renewal is for the name of the certificate that is in use.
  unfoldable pub renew_csr :
      (String → Result String) → DnDict → String → Action CertificatesResponse
  unfolding get_dn csr_common
  renew_csr common_name dn csr = do
    req_cn ← lift (common_name csr)
    peer_cn ← or_raise key_error (get_dn "CN" dn)
    raise_if (not (req_cn == peer_cn)) (http 403)
    csr_common w csr

  module _ {K : Type 0} (kcadmin : KeycloakAdmin K) where
    unfoldable pub get_kc_token : DnDict → Exec (Linked K) Dict
    unfolding require_product client_access_token
    get_kc_token dn = do
      in_store (require_product dn)
      raise_if (not w.settings.kc_enabled) (http 403)
      in_keycloak (client_access_token kcadmin)

  -- The products of the manifest, and one of them.
  abbrev pub products_or_500 : Option (List (String × Product)) → Action (List (String × Product))
  products_or_500 none = raise (http 500)
  products_or_500 (some products) = pure products

  abbrev pub or_failed : Option OperationResultResponse → OperationResultResponse
  or_failed none = failed_with "post_to_product returned None"
  or_failed (some resp) = resp

  unfoldable pub add_interop :
      Http OperationResultResponse → DnDict → Json → String → Action OperationResultResponse
  unfolding require_product lookup method_to_product
  add_interop client dn srcproduct tgtproduct = do
    require_product dn
    products ← products_or_500 (products_of w.settings)
    raise_if (not (is_some (lookup tgtproduct products))) (http 404)
    resp ← lift (post_to_product client w.settings tgtproduct "/api/v1/interop/add" srcproduct)
    pure (or_failed resp)

-- The request that is sent on for a user, with its headers.
pub record ProxyRequest : Type 0 where
  pub url : String
  pub headers : List (String × String)
  pub body : UserCrudRequest

abbrev pub proxy_request : Person → String → Product → String → ProxyRequest
proxy_request person uuid product tgtpath = record {
  url = String.◌++◌ product.api tgtpath;
  headers = ("X-Rasenmaeher-Proxy", "productproxy") ∷ ("X-Proxy-Callsign", person.callsign) ∷ [];
  body = record { uuid = uuid; callsign = person.callsign; x509cert = "" };
}

module _ (w : World) (uuid_text : ℕ → String) where
  -- The paths of the integration API for users are not reachable.
  unfoldable pub get_product_proxy :
      {R : Type 0} → (ProxyRequest → Result R) → Person → String → String → Action R
  unfolding lookup
  get_product_proxy send person tgtproduct tgtpath = do
    products ← or_raise key_error (products_of w.settings)
    product ← or_raise (http 404) (lookup tgtproduct products)
    raise_if (contains_text tgtpath "api/v1/users") (http 403)
    lift (send (proxy_request person (uuid_text person.pk) product tgtpath))
