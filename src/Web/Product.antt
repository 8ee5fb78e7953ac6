-- ===== src/Web/Product.antt =====
-- src/rasenmaeher_api/web/api/product/views.py: products have certificates signed, by a single-use
-- token or with a certificate of their own. `JWTBearer` gives the claims, `MTLSHeader` the name.
pub mod Laws
pub mod Endpoints
use python_rasenmaeher_api.Base.{
  ℕ, zero, suc, ◌+◌, ◌-◌, ◌≤◌, ◌<◌, String, ◌≡◌, refl, sym, ap, ◌∙◌, ◌≢◌, ◌↔◌, ◌⊎◌, inl, inr, Bool,
  true, false, not, ◌&&◌, ◌||◌, Option, none, some, List, [], ◌∷◌, ◌++◌, map, arith, ◌==◌, eq_iff,
  eq_refl, eqb, ltb, if◌then◌else◌, eqb_refl, Bool-cases, Option-cases, is_some, All, find_first,
  where_rows, update_rows, any,
}
use python_rasenmaeher_api.Exec.{
  db_error, Error, not_found, deleted, callsign_reserved, pool_inactive, forbidden_operation,
  token_reuse, backend_error, integrity_error, runtime_error, value_error, key_error,
  unbound_local_error, attribute_error, file_exists_error, http, Result, ok, err, is_err,
  is_not_found, is_value_error, is_http_exception, status_code, Exec, pure, raise, gets, or_raise,
  on_error, except_for, ◌>>=◌, ◌>>◌, modify, raise_if,
}
use python_rasenmaeher_api.Json.{Dict, Json, str, lookup, get_flag, mem_text}
use python_rasenmaeher_api.Settings.{valid_product_cns}
use python_rasenmaeher_api.Db.{Action, World, outside}
use python_rasenmaeher_api.Db.People.{lift}
use python_rasenmaeher_api.Db.Nonces.{by_token, use_token}
use python_rasenmaeher_api.Text.{unescape_newlines}
use python_rasenmaeher_api.Web.Auth.{DnDict, get_dn}

pub record CertificatesResponse : Type 0 where
  pub ca : String
  pub certificate : String

-- `try: by_token; raise HTTPException(403)`, `except NotFound: pass`
unfoldable pub check_token : String → Action (Unit {0})
check_token nonce = except_for is_not_found (do by_token nonce; raise (http 403)) (pure tt)

-- `payload.get("CN") in valid_product_cns`
abbrev pub is_product_name : List String → Option String → Bool
is_product_name cns none = false
is_product_name cns (some cn) = mem_text cn cns

module _ (w : World) where
  unfoldable pub csr_common : String → Action CertificatesResponse
  unfolding unescape_newlines
  csr_common csr = do
    cachain ← outside w.get_ca
    signed ← outside (λ n. w.sign_csr n csr)
    let certpem = unescape_newlines signed
    bundlepem ← outside (λ n. w.get_bundle n certpem)
    pure (record { ca = cachain; certificate = bundlepem })

  -- The nonce is used up after the certificate was signed; the database refuses a nonce that is
  -- no text.
  unfoldable pub sign_with : Option Json → String → Action CertificatesResponse
  sign_with (some (str nonce)) csr = do
    check_token nonce
    resp ← csr_common csr
    use_token w nonce none
    pure resp
  sign_with _ csr = raise db_error

  unfoldable pub return_ca_and_sign_csr : Dict → String → Action CertificatesResponse
  return_ca_and_sign_csr jwt csr = do
    raise_if (not (get_flag "csr" jwt)) (http 403)
    raise_if (not (get_flag "nonce" jwt)) (http 403)
    sign_with (lookup "nonce" jwt) csr

  unfoldable pub return_ca_and_sign_csr_mtls : DnDict → String → Action CertificatesResponse
  return_ca_and_sign_csr_mtls dn csr = do
    cns ← lift (valid_product_cns w.settings)
    raise_if (not (is_product_name cns (get_dn "CN" dn))) (http 403)
    csr_common csr
