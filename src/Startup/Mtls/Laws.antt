-- ===== src/Startup/Mtls/Laws.antt =====
-- When the lock gets free and signing works, the service ends up with its key and certificate.
use python_rasenmaeher_api.Base.{
  ◌∙◌, sym, zero, suc, ◌+◌, ℕ, ◌≡◌, refl, inl, inr, true, false, Option, some, arith, Bool-cases,
}
use python_rasenmaeher_api.Exec.{Result, ok}
use python_rasenmaeher_api.Startup.Mtls.{
  is_ready, mtls_init, MtlsWorld, MtlsConfig, Disk, Files, with_paths,
}
use python_rasenmaeher_api.Startup.Mtls.Created.{
  create_files-CertMade, key_path-with_paths, Works, HasRequest, cert_path-with_paths,
}

module _ (w : MtlsWorld) where
  -- The end of `mtls_init`: the certificate and the key are at the paths of the settings that the
  -- run started with.
  pub record Connected (config : MtlsConfig) (run : Option (Result (Unit {0}) × Disk))
      : Type 0 where
    pub after : Disk
    pub returned : run ≡ some (ok tt, after)
    pub has_files : is_ready config after.files ≡ true

  ready-with_paths :
      (config : MtlsConfig) (files : Files)
      → is_ready (with_paths config) files ≡ is_ready config files
  ready-with_paths config files = rw (cert_path-with_paths config, key_path-with_paths config) refl

  HasRequest-with_paths :
      (config : MtlsConfig) (files : Files)
      → HasRequest w config files
      → HasRequest w (with_paths config) files
  HasRequest-with_paths config files h = rw (key_path-with_paths config) h

  Connected-with_paths :
      (config : MtlsConfig) (run : Option (Result (Unit {0}) × Disk))
      → Connected (with_paths config) run
      → Connected config run
  Connected-with_paths config run c = record {
    after = c.after;
    returned = c.returned;
    has_files = sym (ready-with_paths config c.after.files) ∙ c.has_files;
  }

  round-Connected :
      Works w
      → (fuel round : ℕ) (s : Disk) → HasRequest w s.config (w.others round s.files)
      → (w.lock round ≡ false
          → Connected (with_paths s.config) (
              mtls_init w fuel
                (suc round)
                (record s { config = with_paths s.config; files = w.others round s.files })))
      → Connected s.config (mtls_init w (suc fuel) round s)
  unfolding mtls_init
  round-Connected works fuel round s h later =
      let config = with_paths s.config in
      let asleep : Disk = record s { config = config; files = w.others round s.files } in
      let made =
        create_files-CertMade w works round config asleep
          (HasRequest-with_paths s.config asleep.files h) in
      let created = made.returned in
      let ready = sym (ready-with_paths s.config made.after.files) ∙ made.ready in
      elim (Bool-cases (is_ready s.config s.files)) [
        | inl e ↦ record {
          after = record s { config = config };
          returned = ground arith;
          has_files = e;
        }
        | inr e ↦ elim (Bool-cases (w.lock round)) [
          | inl free ↦ record { after = made.after; returned = ground arith; has_files = ready }
          | inr taken ↦ Connected-with_paths s.config _ (waited e taken (later taken))
        ]
      ]
    where
      waited :
          is_ready s.config s.files ≡ false
          → w.lock round ≡ false
          → Connected (with_paths s.config) (
              mtls_init w fuel
                (suc round)
                (record s { config = with_paths s.config; files = w.others round s.files }))
          → Connected (with_paths s.config) (mtls_init w (suc fuel) round s)
      waited e taken c = record {
        after = c.after;
        returned = let returned = c.returned in ground arith;
        has_files = c.has_files;
      }

  -- If the lock is free in some round, key pairs, requests and signatures are made when asked for,
  -- and a key that other processes leave comes with its request, then the recursion of `mtls_init`
  -- ends within that round, without an error, and the service has its key and its certificate.
  pub mtls_init-Connected :
      Works w
      → (rounds round : ℕ) (s : Disk) → w.lock (round + rounds) ≡ true
      → HasRequest w s.config s.files
      → ((n : ℕ) (files : Files)
          → HasRequest w s.config files
          → HasRequest w s.config (w.others n files))
      → Connected s.config (mtls_init w (suc rounds) round s)
  unfolding mtls_init
  mtls_init-Connected works zero round s free h others =
      round-Connected works 0 round s (others round s.files h) λ taken. absurd (ground arith)
  mtls_init-Connected works (suc rounds) round s free h others =
      round-Connected works (suc rounds) round s (others round s.files h) λ taken.
        mtls_init-Connected works rounds (suc round) _ (next free)
          (HasRequest-with_paths s.config (w.others round s.files) (others round s.files h))
          (λ n files k.
            HasRequest-with_paths s.config (w.others n files)
              (others n files (rw (sym (key_path-with_paths s.config)) k)))
    where
      next : w.lock (round + suc rounds) ≡ true → w.lock (suc round + rounds) ≡ true
      next h = let e : round + suc rounds ≡ suc round + rounds = omega arith in rw (← e) h
