-- ===== src/Startup/Mtls/Created.antt =====
-- What the body of `mtls_init` under the lock leaves behind when signing works.
use python_rasenmaeher_api.Base.{
  ◌==◌, Option-cases, ℕ, String, ◌≡◌, refl, ap, inl, inr, true, false, Option, none, some, arith,
  Bool-cases, is_some,
}
use python_rasenmaeher_api.Exec.{Result, ok}
use python_rasenmaeher_api.Startup.Mtls.{
  read_text, is_ready, create_files, ensure_cert, sign_and_save, request_text, pubkey_path,
  MtlsWorld, MtlsConfig, Disk, Files, key_path, cert_path, with_paths, exists, write_text,
  ensure_key, csr_path, or_default,
}
use python_rasenmaeher_api.Json.{lookup, insert}
use python_rasenmaeher_api.Json.Laws.{is_some-lookup-insert, lookup-insert_self}
use python_rasenmaeher_api.Text.{unescape_newlines}

or_default_idem :
    (d : String) (o : Option String) → or_default d (some (or_default d o)) ≡ or_default d o
or_default_idem d none = ground arith
or_default_idem d (some p) = ground arith

pub key_path-with_paths : (config : MtlsConfig) → key_path (with_paths config) ≡ key_path config
key_path-with_paths config = or_default_idem _ config.mtls_client_key_path

pub cert_path-with_paths : (config : MtlsConfig) → cert_path (with_paths config) ≡ cert_path config
cert_path-with_paths config = or_default_idem _ config.mtls_client_cert_path

module _ (w : MtlsWorld) where
  -- Wherever there is a key, there is the request that was made with it.
  abbrev pub HasRequest : MtlsConfig → Files → Type 0
  HasRequest config files =
      exists (key_path config) files ≡ true → exists (csr_path w config) files ≡ true

  -- The calls of libraries and backends return.
  pub record Works : Type 0 where
    pub keypairs : (round : ℕ) → (pair : String × String) × (w.create_keypair round ≡ ok pair)
    pub requests : (key cn : String) → (csrpem : String) × (w.create_client_csr key cn ≡ ok csrpem)
    pub signs : (csrpem : String) → (certpem : String) × (w.anon_sign_csr csrpem ≡ ok certpem)

  record KeyMade (round : ℕ) (config : MtlsConfig) (s : Disk) : Type 0 where
    csrpem : Option String
    after : Disk
    returned : ensure_key w round config s ≡ (ok csrpem, after)
    has_key : exists (key_path config) after.files ≡ true
    has_csr : exists (csr_path w config) after.files ≡ true
    same_config : after.config ≡ s.config

  make_key :
      Works
      → (round : ℕ) (config : MtlsConfig) (s : Disk) → exists (key_path config) s.files ≡ false
      → KeyMade round config s
  unfolding ensure_key write_text
  make_key works round config s missing =
      let (pair, made) = works.keypairs round in
      let (csrpem, requested) = works.requests pair.0 config.mtls_client_cert_cn in
      let f1 = insert (key_path config) pair.0 s.files in
      let f2 = insert (pubkey_path w config) pair.1 f1 in
      let f3 = insert (csr_path w config) csrpem f2 in
      let k1 = lookup-insert_self (key_path config) pair.0 s.files in
      let k2 =
        is_some-lookup-insert (pubkey_path w config) (key_path config) pair.1 f1 (ground arith) in
      record {
        csrpem = some csrpem;
        after = record s { files = f3 };
        returned = ground arith;
        has_key = is_some-lookup-insert (csr_path w config) (key_path config) csrpem f2 k2;
        has_csr = ap is_some (lookup-insert_self (csr_path w config) csrpem f2);
        same_config = refl;
      }

  ensure_key-KeyMade :
      Works
      → (round : ℕ) (config : MtlsConfig) (s : Disk) → HasRequest config s.files
      → KeyMade round config s
  unfolding ensure_key
  ensure_key-KeyMade works round config s h = elim (Bool-cases (exists (key_path config) s.files)) [
    | inl e ↦ record {
      csrpem = none;
      after = s;
      returned = ground arith;
      has_key = e;
      has_csr = h e;
      same_config = refl;
    }
    | inr e ↦ make_key works round config s e
  ]

  pub record CertMade (config : MtlsConfig) (run : Result (Unit {0}) × Disk) : Type 0 where
    pub after : Disk
    pub returned : run ≡ (ok tt, after)
    pub ready : is_ready config after.files ≡ true
    pub path_cert : exists (cert_path config) after.files ≡ true

  request_text-found :
      (config : MtlsConfig) (csrpem : Option String) (s : Disk)
      → exists (csr_path w config) s.files ≡ true
      → (text : String) × (request_text w config csrpem s ≡ (ok text, s))
  unfolding request_text read_text
  request_text-found config none s h = elim (Option-cases (lookup (csr_path w config) s.files)) [
    | inl e ↦ absurd (ground arith)
    | inr (text, e) ↦ (text, ground arith)
  ]
  request_text-found config (some csrpem) s h =
      elim (Option-cases (lookup (csr_path w config) s.files)) [
        | inl e ↦ absurd (ground arith)
        | inr (text, e) ↦ elim (Bool-cases (csrpem == "")) [
          | inl b ↦ (text, ground arith)
          | inr b ↦ (csrpem, ground arith)
        ]
      ]

  sign_and_save-CertMade :
      Works
      → (config : MtlsConfig) (text : String) (s : Disk) → exists (key_path config) s.files ≡ true
      → CertMade config (sign_and_save w config text s)
  unfolding sign_and_save write_text
  sign_and_save-CertMade works config text s key =
      let (certpem, signed) = works.signs text in
      let pem = unescape_newlines certpem in
      let there = ap is_some (lookup-insert_self (cert_path config) pem s.files) in
      let still = is_some-lookup-insert (cert_path config) (key_path config) pem s.files key in
      record {
        after = record s { files = insert (cert_path config) pem s.files };
        returned = ground arith;
        ready = ground arith;
        path_cert = there;
      }

  ensure_cert-CertMade :
      Works
      → (config : MtlsConfig) (csrpem : Option String) (s : Disk)
      → exists (key_path config) s.files ≡ true
      → exists (csr_path w config) s.files ≡ true
      → CertMade config (ensure_cert w config csrpem s)
  unfolding ensure_cert
  ensure_cert-CertMade works config csrpem s key csr =
      let (text, read) = request_text-found config csrpem s csr in
      let made = sign_and_save-CertMade works config text s key in
      let saved = made.returned in
      elim (Bool-cases (exists (cert_path config) s.files)) [
        | inl e ↦ record { after = s; returned = ground arith; ready = ground arith; path_cert = e }
        | inr e ↦ record {
          after = made.after;
          returned = ground arith;
          ready = made.ready;
          path_cert = made.path_cert;
        }
      ]

  pub create_files-CertMade :
      Works
      → (round : ℕ) (config : MtlsConfig) (s : Disk) → HasRequest config s.files
      → CertMade config (create_files w round config s)
  unfolding create_files
  create_files-CertMade works round config s h =
      let key = ensure_key-KeyMade works round config s h in
      let cert = ensure_cert-CertMade works config key.csrpem key.after key.has_key key.has_csr in
      let returned = key.returned in
      let saved = cert.returned in
      record {
        after = cert.after;
        returned = ground arith;
        ready = cert.ready;
        path_cert = cert.path_cert;
      }
