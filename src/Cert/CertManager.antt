-- ===== src/Cert/CertManager.antt =====
-- The client of cert-manager: src/rasenmaeher_api/cert/cert_manager. The cluster is a parameter, as are
-- Python's `str.lower`, SHA-256 as hexadecimal text and the parser of certificate requests.
pub mod Names
use Prim.Native.Char.{Char, code}
use Prim.Native.String
use python_rasenmaeher_api.Base.{
  ℕ, zero, suc, ◌+◌, ◌-◌, ◌≤◌, ◌<◌, String, ◌≡◌, refl, sym, ap, ◌∙◌, ◌≢◌, ◌↔◌, ◌⊎◌, inl, inr, Bool,
  true, false, not, ◌&&◌, ◌||◌, Option, none, some, List, [], ◌∷◌, ◌++◌, map, arith, ◌==◌, eq_iff,
  eq_refl, eqb, ltb, if◌then◌else◌, eqb_refl, Bool-cases, Option-cases, is_some, All, find_first,
  where_rows, update_rows, any,
}
use python_rasenmaeher_api.Exec.{
  cert_error, Error, not_found, deleted, callsign_reserved, pool_inactive, forbidden_operation,
  token_reuse, backend_error, integrity_error, runtime_error, value_error, key_error,
  unbound_local_error, attribute_error, file_exists_error, http, Result, ok, err, is_err,
  is_not_found, is_value_error, is_http_exception, status_code, Exec, pure, raise, gets, or_raise,
  on_error, except_for, ◌>>=◌, ◌>>◌, modify, raise_if,
}
use python_rasenmaeher_api.Text.{join, take}
use python_rasenmaeher_api.Cert.{ReasonTypes, validate_reason}
use python_rasenmaeher_api.Db.{World}

-- A character of "[a-z0-9-]"; the minus is 45.
abbrev pub between : ℕ → ℕ → ℕ → Bool
between a b n = not (ltb n a) && not (ltb b n)

unfoldable pub is_name_code : ℕ → Bool
is_name_code n = between 97 122 n || between 48 57 n || eqb n 45

-- `re.sub(r"[^a-z0-9-]", "-", s)`
unfoldable pub slugify : String → String
unfolding is_name_code
slugify String.[] = ""
slugify (String.◌∷◌ c s) =
    let rest = slugify s in
    if is_name_code (code c) then String.◌∷◌ c rest else String.◌++◌ "-" rest

-- `s.strip("-")`
unfoldable pub lstrip_minus : String → String
lstrip_minus String.[] = ""
lstrip_minus (String.◌∷◌ c s) = if eqb (code c) 45 then lstrip_minus s else String.◌∷◌ c s

unfoldable pub keep_minus : Char → String → String
keep_minus c String.[] = if eqb (code c) 45 then "" else String.◌∷◌ c ""
keep_minus c (String.◌∷◌ d s) = String.◌∷◌ c (String.◌∷◌ d s)

unfoldable pub rstrip_minus : String → String
unfolding keep_minus
rstrip_minus String.[] = ""
rstrip_minus (String.◌∷◌ c s) = keep_minus c (rstrip_minus s)

-- `filter(None, …)`
unfoldable pub given_texts : List String → List String
given_texts [] = []
given_texts (s ∷ ss) = if s == "" then given_texts ss else s ∷ given_texts ss

module _ (lower hexdigest : String → String) where
  unfoldable pub slug_of : String → String
  unfolding slugify lstrip_minus rstrip_minus take
  slug_of callsign = take 40 (rstrip_minus (lstrip_minus (slugify (lower callsign))))

  unfoldable pub cr_name : String → String
  unfolding slug_of take given_texts join
  cr_name callsign =
      join "-" (given_texts ("rm" ∷ slug_of callsign ∷ take 10 (hexdigest callsign) ∷ []))

  unfoldable pub cr_name_for_serial : String → String
  unfolding take
  cr_name_for_serial serial = String.◌++◌ "rm-serial-" (take 10 (hexdigest serial))

-- The `KeyUsage` extension of a request, and the names of its `ExtendedKeyUsage` that cert-manager
-- knows by the names of their object identifiers.
pub record KeyUsage : Type 0 where
  pub digital_signature : Bool
  pub content_commitment : Bool
  pub key_encipherment : Bool
  pub data_encipherment : Bool
  pub key_agreement : Bool
  pub key_cert_sign : Bool
  pub crl_sign : Bool
  -- these two are defined only with `key_agreement`
  pub encipher_only : Bool
  pub decipher_only : Bool

pub data ExtendedUsage : Type 0 where
  server_auth client_auth code_signing email_protection time_stamping ocsp_signing : ExtendedUsage
  other_usage : ExtendedUsage

abbrev pub ext_key_usage_name : ExtendedUsage → Option String
ext_key_usage_name server_auth = some "server auth"
ext_key_usage_name client_auth = some "client auth"
ext_key_usage_name code_signing = some "code signing"
ext_key_usage_name email_protection = some "email protection"
ext_key_usage_name time_stamping = some "timestamping"
ext_key_usage_name ocsp_signing = some "ocsp signing"
ext_key_usage_name other_usage = none

abbrev pub usage_if : Bool → String → List String → List String
usage_if b name rest = if b then name ∷ rest else rest

unfoldable pub key_usages : Option KeyUsage → List String
key_usages none = []
key_usages (some ku) = usage_if ku.digital_signature "digital signature" (
    usage_if ku.content_commitment "content commitment" (
      usage_if ku.key_encipherment "key encipherment" (
        usage_if ku.data_encipherment "data encipherment" (
          usage_if ku.key_agreement "key agreement" (
            usage_if ku.key_cert_sign "cert sign" (
              usage_if ku.crl_sign "crl sign" (
                usage_if (ku.key_agreement && ku.encipher_only) "encipher only"
                  (usage_if (ku.key_agreement && ku.decipher_only) "decipher only" []))))))))

unfoldable pub extended_usages : List ExtendedUsage → List String
extended_usages [] = []
extended_usages (oid ∷ eku) =
    let rest = extended_usages eku in
    elim (ext_key_usage_name oid) [ none ↦ rest | some name ↦ name ∷ rest ]

-- A parsed request: the values of its common name attributes, its extensions, and its normalised
-- PEM text in base 64.
pub record Csr : Type 0 where
  pub common_names : List String
  pub key_usage : Option KeyUsage
  pub extended_key_usage : Option (List ExtendedUsage)
  pub base64 : String

abbrev pub usages_or_none : Option (List ExtendedUsage) → List String
usages_or_none none = []
usages_or_none (some eku) = extended_usages eku

unfoldable pub csr_usages : Csr → List String
unfolding key_usages extended_usages
csr_usages csr = key_usages csr.key_usage ++ usages_or_none csr.extended_key_usage

abbrev pub or_default_usages : List String → List String
or_default_usages [] = "digital signature" ∷ "key encipherment" ∷ "client auth" ∷ []
or_default_usages (usage ∷ usages) = usage ∷ usages

abbrev pub csr_common_name : Csr → Option String
csr_common_name csr = elim csr.common_names [ [] ↦ none | cn ∷ cns ↦ some cn ]

-- What the cluster's client raises.
pub data KubeError : Type 0 where
  resource_conflict resource_not_found api_error wait_timeout : KubeError
  other_error : Error → KubeError

-- What is sent as a new `CertificateRequest`.
pub record Submitted : Type 0 where
  pub name : String
  pub usages : List String
  pub request : String

-- Whether the client's exceptions are `APIError`s depends on the client. A certificate request in
-- the cluster is a number; waiting for it gives its certificate, if it has one then.
pub record Cluster : Type 0 where
  pub is_api_error : KubeError → Bool
  pub as_error : KubeError → Error
  pub async_create : Submitted → ℕ ⊎ KubeError
  pub async_get : String → ℕ ⊎ KubeError
  pub async_delete : String → Unit {0} ⊎ KubeError
  pub wait_for : ℕ → Option String ⊎ KubeError
  pub read_ca : Option String

module _ (cluster : Cluster) (lower hexdigest : String → String) where
  -- `_create_cr`: an `APIError` becomes a `CertManagerError`.
  unfoldable pub create_cr : String → Csr → ℕ ⊎ KubeError
  unfolding csr_usages
  create_cr name csr =
      elim (cluster.async_create (record {
        name = name;
        usages = or_default_usages (csr_usages csr);
        request = csr.base64;
      })) [
        | inl cr ↦ inl cr
        | inr e ↦ inr (if cluster.is_api_error e then other_error cert_error else e)
      ]

  -- `except ResourceConflict`: the one that exists is taken.
  abbrev pub get_existing : String → ℕ ⊎ KubeError → ℕ ⊎ KubeError
  get_existing name (inl cr) = inl cr
  get_existing name (inr resource_conflict) = cluster.async_get name
  get_existing name (inr e) = inr e

  unfoldable pub upsert_cr : String → Csr → ℕ ⊎ KubeError
  unfolding create_cr
  upsert_cr name csr = get_existing name (create_cr name csr)

  unfoldable pub delete_cr : String → Bool ⊎ KubeError
  delete_cr name = elim (cluster.async_delete name) [
    | inl _ ↦ inl true
    | inr e ↦ elim e [ resource_not_found ↦ inl false | x ↦ inr x ]
  ]

  unfoldable pub get_ca : Result String
  get_ca = elim cluster.read_ca [ none ↦ err cert_error | some pem ↦ ok pem ]

  -- `pem.rstrip("\n") + "\n"`, for a text whose line feeds are 10
  unfoldable pub drop_newlines : String → String
  drop_newlines String.[] = ""
  drop_newlines (String.◌∷◌ c s) =
      let rest = drop_newlines s in if eqb (code c) 10 && rest == "" then "" else String.◌∷◌ c rest

  abbrev pub with_ca : Bool → String → Result String → Result String
  with_ca false pem ca = ok pem
  with_ca true pem (ok ca) = ok (String.◌++◌ (drop_newlines pem) (String.◌++◌ "\n" ca))
  with_ca true pem (err e) = err e

  abbrev pub kube_error : KubeError → Error
  kube_error (other_error e) = e
  kube_error wait_timeout = cert_error
  kube_error e = cluster.as_error e

  abbrev pub issued : Bool → Option String ⊎ KubeError → Result String
  issued bundle (inr e) = err (kube_error e)
  issued bundle (inl none) = err runtime_error
  issued bundle (inl (some pem)) = with_ca bundle pem get_ca

  abbrev pub wait_for : Bool → ℕ ⊎ KubeError → Result String
  wait_for bundle (inr (other_error e)) = err e
  wait_for bundle (inr e) = err (cluster.as_error e)
  wait_for bundle (inl cr) = issued bundle (cluster.wait_for cr)

  -- The resource is named by the common name, or by the request if it has none.
  unfoldable pub request_name : Csr → String → String
  unfolding cr_name take
  request_name csr text = elim (csr_common_name csr) [
    | none ↦ String.◌++◌ "rm-anon-" (take 10 (hexdigest text))
    | some cn ↦
        if cn == ""
        then String.◌++◌ "rm-anon-" (take 10 (hexdigest text))
        else cr_name lower hexdigest cn
  ]

  unfoldable pub sign_csr : Csr → String → Bool → Result String
  unfolding request_name upsert_cr get_ca drop_newlines
  sign_csr csr text bundle = wait_for bundle (upsert_cr (request_name csr text) csr)

  -- `get_bundle`: a line feed is added where the certificate does not end with one.
  unfoldable pub ends_with_newline : String → Bool
  ends_with_newline String.[] = false
  ends_with_newline (String.◌∷◌ c String.[]) = eqb (code c) 10
  ends_with_newline (String.◌∷◌ c (String.◌∷◌ d s)) = ends_with_newline (String.◌∷◌ d s)

  unfoldable pub get_bundle : String → Result String
  unfolding get_ca ends_with_newline
  get_bundle cert = elim get_ca [
    | err e ↦ err e
    | ok ca ↦ ok (String.◌++◌ (if ends_with_newline cert then cert else String.◌++◌ cert "\n") ca)
  ]

-- Revocation checks the reason, and nothing else is done.
unfoldable pub revoke_pem : World → String → ReasonTypes → Result (Unit {0})
unfolding validate_reason
revoke_pem w pem reason = elim (validate_reason w reason) [ err e ↦ err e | ok flag ↦ ok tt ]

unfoldable pub revoke_serial : World → String → String → ReasonTypes → Result (Unit {0})
unfolding validate_reason
revoke_serial w serialno authority_key_id reason = elim (validate_reason w reason) [
  | err e ↦ err e
  | ok flag ↦ ok tt
]
