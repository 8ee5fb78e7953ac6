-- ===== src/Startup/Mtls.antt =====
-- src/rasenmaeher_api/mtlsinit.py: the key pair and the certificate with which the service itself
-- connects to the products. A file is its text under its path; `lock` and `others` say, for each
-- round, whether the lock is free and what other processes did to the files before. Key pairs and
-- certificate requests are made by libpvarki, whose paths are a parameter. Certificates are ASCII.
pub mod Created
pub mod Laws
use Prim.Native.Char.{Char, code}
use Prim.Native.String
use python_rasenmaeher_api.Base.{
  ℕ, zero, suc, ◌+◌, ◌-◌, ◌≤◌, ◌<◌, String, ◌≡◌, refl, sym, ap, ◌∙◌, ◌≢◌, ◌↔◌, ◌⊎◌, inl, inr, Bool,
  true, false, not, ◌&&◌, ◌||◌, Option, none, some, List, [], ◌∷◌, ◌++◌, map, arith, ◌==◌, eq_iff,
  eq_refl, eqb, ltb, if◌then◌else◌, eqb_refl, Bool-cases, Option-cases, is_some, All, find_first,
  where_rows, update_rows, any,
}
use python_rasenmaeher_api.Exec.{
  os_error, is_cert_error, Error, not_found, deleted, callsign_reserved, pool_inactive,
  forbidden_operation, token_reuse, backend_error, integrity_error, runtime_error, value_error,
  key_error, unbound_local_error, attribute_error, file_exists_error, http, Result, ok, err, is_err,
  is_not_found, is_value_error, is_http_exception, status_code, Exec, pure, raise, gets, or_raise,
  on_error, except_for, ◌>>=◌, ◌>>◌, modify, raise_if,
}
use python_rasenmaeher_api.Json.{insert, lookup}
use python_rasenmaeher_api.Text.{unescape_newlines}

abbrev pub Files : Type 0
Files = List (String × String)

-- A path that is not set, or empty, gets its default.
pub record MtlsConfig : Type 0 where
  pub persistent_data_dir : String
  pub mtls_client_cert_path : Option String
  pub mtls_client_key_path : Option String
  pub mtls_client_cert_cn : String

pub record Disk : Type 0 where
  pub config : MtlsConfig
  pub files : Files

pub record MtlsWorld : Type 0 where
  pub lock : ℕ → Bool
  pub others : ℕ → Files → Files
  -- the paths of the public key and the request: `resolve_filepaths`
  pub resolve_pubkey_path : String → String → String
  pub resolve_csr_path : String → String → String
  -- the private and the public key that are written
  pub create_keypair : ℕ → Result (String × String)
  pub create_client_csr : String → String → Result String
  pub anon_sign_csr : String → Result String

abbrev pub cert_name_prefix : String
cert_name_prefix = "rm_mtls_client"

-- `Path(a) / b` for a directory without a slash at its end
abbrev pub join_path : String → String → String
join_path a b = String.◌++◌ a (String.◌++◌ "/" b)

abbrev pub default_cert_path : MtlsConfig → String
default_cert_path config =
    join_path config.persistent_data_dir (join_path "public" (String.◌++◌ cert_name_prefix ".pem"))

abbrev pub default_key_path : MtlsConfig → String
default_key_path config =
    join_path config.persistent_data_dir (join_path "private" (String.◌++◌ cert_name_prefix ".key"))

abbrev pub is_set : Option String → Bool
is_set none = false
is_set (some path) = not (path == "")

abbrev pub or_default : String → Option String → String
or_default path none = path
or_default path (some p) = if p == "" then path else p

-- The paths as `check_settings_clientpaths` leaves them.
abbrev pub cert_path : MtlsConfig → String
cert_path config = or_default (default_cert_path config) config.mtls_client_cert_path

abbrev pub key_path : MtlsConfig → String
key_path config = or_default (default_key_path config) config.mtls_client_key_path

abbrev pub with_paths : MtlsConfig → MtlsConfig
with_paths config = record config {
  mtls_client_cert_path = some (cert_path config);
  mtls_client_key_path = some (key_path config);
}

-- True if a setting was changed.
unfoldable pub check_settings_clientpaths : Exec Disk Bool
check_settings_clientpaths s =
    let config = s.config in
    (
      ok (not (is_set config.mtls_client_cert_path) || not (is_set config.mtls_client_key_path)),
      record s { config = with_paths config },
    )

abbrev pub exists : String → Files → Bool
exists path files = is_some (lookup path files)

-- The certificate and the key are there.
abbrev pub is_ready : MtlsConfig → Files → Bool
is_ready config files = exists (cert_path config) files && exists (key_path config) files

unfoldable pub check_mtls_init : Exec Disk Bool
unfolding check_settings_clientpaths
check_mtls_init = do check_settings_clientpaths; gets (λ s. is_ready s.config s.files)

unfoldable pub write_text : String → String → Exec Disk (Unit {0})
unfolding insert
write_text path text = modify (λ s. record s { files = insert path text s.files })

-- `path.read_text()`; Python's `FileNotFoundError` is an `OSError`.
unfoldable pub read_text : String → Exec Disk String
unfolding lookup
read_text path = do found ← gets (λ s. lookup path s.files); or_raise os_error found

module _ (w : MtlsWorld) where
  abbrev pub pubkey_path : MtlsConfig → String
  pubkey_path config = w.resolve_pubkey_path config.persistent_data_dir cert_name_prefix

  abbrev pub csr_path : MtlsConfig → String
  csr_path config = w.resolve_csr_path config.persistent_data_dir cert_name_prefix

  -- `if not privkeypath.exists()`: the request that was made, if one was.
  unfoldable pub ensure_key : ℕ → MtlsConfig → Exec Disk (Option String)
  unfolding write_text
  ensure_key round config = do
    there ← gets (λ s. exists (key_path config) s.files)
    elim there [
      | true ↦ pure none
      | false ↦ do
        keypair ← (λ s. (w.create_keypair round, s))
        write_text (key_path config) keypair.0
        write_text (pubkey_path config) keypair.1
        csrpem ← (λ s. (w.create_client_csr keypair.0 config.mtls_client_cert_cn, s))
        write_text (csr_path config) csrpem
        pure (some csrpem)
    ]

  -- `if not csrpem: csrpem = csrpath.read_text()`
  unfoldable pub request_text : MtlsConfig → Option String → Exec Disk String
  unfolding read_text
  request_text config none = read_text (csr_path config)
  request_text config (some csrpem) =
      if csrpem == "" then read_text (csr_path config) else pure csrpem

  -- A failure of the certificate backend is logged only.
  unfoldable pub sign_and_save : MtlsConfig → String → Exec Disk (Unit {0})
  unfolding write_text unescape_newlines
  sign_and_save config csrpem =
      on_error
        (do
          certpem ← (λ s. (w.anon_sign_csr csrpem, s))
          write_text (cert_path config) (unescape_newlines certpem))
        (λ e. if is_cert_error e then pure tt else raise e)

  unfoldable pub ensure_cert : MtlsConfig → Option String → Exec Disk (Unit {0})
  unfolding request_text sign_and_save
  ensure_cert config csrpem = do
    there ← gets (λ s. exists (cert_path config) s.files)
    elim there [
      | true ↦ pure tt
      | false ↦ do text ← request_text config csrpem; sign_and_save config text
    ]

  -- The body under the lock.
  unfoldable pub create_files : ℕ → MtlsConfig → Exec Disk (Unit {0})
  unfolding ensure_key ensure_cert
  create_files round config = do csrpem ← ensure_key round config; ensure_cert config csrpem

  -- What others did while this process slept.
  abbrev pub sleep : ℕ → Disk → Disk
  sleep round s = record s { files = w.others round s.files }

  -- A round of the recursion that waits for the lock; `none` is a run that is not over.
  unfoldable pub mtls_init : ℕ → ℕ → Disk → Option (Result (Unit {0}) × Disk)
  unfolding create_files
  mtls_init zero round s = none
  mtls_init (suc fuel) round s =
      let configured = record s { config = with_paths s.config } in
      let asleep = sleep round configured in
      let rest = mtls_init fuel (suc round) asleep in
      elim (is_ready s.config s.files) [
        | true ↦ some (ok tt, configured)
        | false ↦ elim (w.lock round) [
          | false ↦ rest
          | true ↦ some (create_files round asleep.config asleep)
        ]
      ]
