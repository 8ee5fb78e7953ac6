-- ===== src/Web/Validity.antt =====
-- src/rasenmaeher_api/web/api/internal/callsign_validity.py: whether a callsign may use the services.
-- The callsign is the one of the request without the space around it.
pub mod Laws
use python_rasenmaeher_api.Base.{
  ℕ, zero, suc, ◌+◌, ◌-◌, ◌≤◌, ◌<◌, String, ◌≡◌, refl, sym, ap, ◌∙◌, ◌≢◌, ◌↔◌, ◌⊎◌, inl, inr, Bool,
  true, false, not, ◌&&◌, ◌||◌, Option, none, some, List, [], ◌∷◌, ◌++◌, map, arith, ◌==◌, eq_iff,
  eq_refl, eqb, ltb, if◌then◌else◌, eqb_refl, Bool-cases, Option-cases, is_some, All, find_first,
  where_rows, update_rows, any,
}
use python_rasenmaeher_api.Exec.{
  Error, not_found, deleted, callsign_reserved, pool_inactive, forbidden_operation, token_reuse,
  backend_error, integrity_error, runtime_error, value_error, key_error, unbound_local_error,
  attribute_error, file_exists_error, http, Result, ok, err, is_err, is_not_found, is_value_error,
  is_http_exception, status_code, Exec, pure, raise, gets, or_raise, on_error, except_for, ◌>>=◌,
  ◌>>◌, modify, raise_if,
}
use python_rasenmaeher_api.Json.{mem_text}
use python_rasenmaeher_api.Settings.{RmSettings, valid_product_cns}
use python_rasenmaeher_api.Db.{Action, World}
use python_rasenmaeher_api.Db.People.{lift, by_callsign, text_or_none}
use python_rasenmaeher_api.Text.{strip}

-- `_check_secret`
abbrev pub is_refused : Option String → Option String → Bool
is_refused none provided = false
is_refused (some expected) none = true
is_refused (some expected) (some given) = not (given == expected)

unfoldable pub check_secret : RmSettings → Option String → Action (Unit {0})
check_secret settings provided =
    raise_if (is_refused (text_or_none settings.callsign_validity_secret) provided) (http 401)

-- `callsign in settings.valid_product_cns`; no manifest means no.
unfoldable pub is_product_cn : RmSettings → String → Bool
is_product_cn settings callsign = elim (valid_product_cns settings) [
  | ok cns ↦ mem_text callsign cns
  | err e ↦ false
]

module _ (w : World) where
  unfoldable pub is_valid : String → Action Bool
  unfolding by_callsign is_not_found is_product_cn
  is_valid callsign =
      elim (callsign == w.settings.mtls_client_cert_cn || is_product_cn w.settings callsign) [
        | true ↦ pure true
        | false ↦ except_for is_not_found (do by_callsign w callsign false; pure true) (pure false)
      ]

  unfoldable pub callsign_validity_check : Option String → String → Action Bool
  unfolding check_secret is_valid strip
  callsign_validity_check provided given = do
    check_secret w.settings provided
    let callsign = strip given
    raise_if (callsign == "") (http 400)
    is_valid callsign
