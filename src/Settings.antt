-- ===== src/Settings.antt =====
-- src/rasenmaeher_api/rmsettings.py: the settings that the modelled code reads. `manifest` is the
-- content of the kraftwerk manifest file; `none` means that the file does not exist.
use python_rasenmaeher_api.Base.{ℕ, String, Bool, Option, none, some, List, [], ◌∷◌}
use python_rasenmaeher_api.Exec.{Result, ok, err, value_error, key_error}
use python_rasenmaeher_api.Text.{before_char}

-- One entry of the manifest's "products".
pub record Product : Type 0 where
  pub certcn : String
  pub api : String

-- A key that the JSON object lacks is `none`.
pub record Manifest : Type 0 where
  pub dns : Option String
  pub deployment : Option String
  pub products : Option (List (String × Product))

pub record RmSettings : Type 0 where
  pub manifest : Option Manifest
  pub mtls_client_cert_cn : String
  pub kc_enabled : Bool
  pub callsign_validity_secret : Option String
  pub code_size : ℕ
  pub code_avoid_confusion : Bool

unfoldable pub load_manifest : RmSettings → Result Manifest
load_manifest settings = elim settings.manifest [ none ↦ err value_error | some m ↦ ok m ]

abbrev pub certcns : List (String × Product) → List String
certcns [] = []
certcns ((_, product) ∷ products) = product.certcn ∷ certcns products

abbrev pub manifest_cns : Option (List (String × Product)) → Result (List String)
manifest_cns none = err key_error
manifest_cns (some products) = ok (certcns products)

abbrev pub cns_of : Result Manifest → Result (List String)
cns_of (ok m) = manifest_cns m.products
cns_of (err e) = err e

unfoldable pub valid_product_cns : RmSettings → Result (List String)
unfolding load_manifest
valid_product_cns settings = cns_of (load_manifest settings)

-- `deployment_name`: the part of the DNS name before its first dot, which is 46.
abbrev pub host_part : Option String → String
host_part none = "undefined"
host_part (some dns) = before_char 46 dns

unfoldable pub deployment_name : RmSettings → Result String
unfolding load_manifest before_char
deployment_name settings = elim (load_manifest settings) [
  | err e ↦ err e
  | ok m ↦ ok (host_part m.dns)
]
