-- ===== src/Startup/Jwt/Laws.antt =====
-- The private key is never overwritten.
use python_rasenmaeher_api.Base.{
  zero, refl, ◌&&◌, suc, ap, ◌+◌, ◌==◌, not, ℕ, String, ◌≡◌, inl, inr, Bool, true, false, Option,
  none, some, List, [], ◌∷◌, arith, eq_iff, if◌then◌else◌, Bool-cases,
}
use python_rasenmaeher_api.Exec.{Result, ok, err, Exec, pure, gets}
use python_rasenmaeher_api.Exec.Keeps.{Keeps, Keeps-pure, Keeps-gets, Keeps-bind, Keeps-then}
use python_rasenmaeher_api.Startup.Mtls.{Files, exists, join_path}
use python_rasenmaeher_api.Startup.Jwt.{
  private_path, jwt_init, after_check, create_key, check_private_key, resolve_pubkeydir, copy_given,
  load_key, JwtWorld, write_bytes, write_missing, copy_keys, check_public_keys, check_jwt_init,
  check_public_keys_kraftwerk, check_public_keys_tilauspalvelu, save_loaded,
}
use python_rasenmaeher_api.Json.{lookup}
use python_rasenmaeher_api.Json.Laws.{lookup-insert}

module _ (path text : String) where
  -- The file is there, with that text.
  abbrev pub HasText : Files → Type 0
  HasText files = lookup path files ≡ some text

  write_missing-at :
      (other written : String) (files : Files)
      → HasText files
      → HasText (write_missing other written files).1
  unfolding write_missing write_bytes
  write_missing-at other written files h = elim (Bool-cases (exists other files)) [
    | inl e ↦ ground arith
    | inr e ↦
        let after = lookup-insert other path written files in ground (arith, eq_iff other path)
  ]

  Keeps-write_missing : (other written : String) → Keeps HasText (write_missing other written)
  Keeps-write_missing other written = record { at = write_missing-at other written }

  Keeps-copy_keys :
      (dir : String) (keys : List (String × String)) → Keeps HasText (copy_keys dir keys)
  unfolding copy_keys
  Keeps-copy_keys dir [] = Keeps-pure tt
  Keeps-copy_keys dir ((name, t) ∷ keys) =
      Keeps-then (write_missing (join_path dir name) t) (copy_keys dir keys)
        (Keeps-write_missing (join_path dir name) t) (Keeps-copy_keys dir keys)

  module _ (w : JwtWorld) where
    Keeps-save_loaded : (other : String) (r : Result String) → Keeps HasText (save_loaded w other r)
    Keeps-save_loaded other (ok t) = Keeps-write_missing other t
    Keeps-save_loaded other (err e) = Keeps-pure tt

    Keeps-load_key :
        (round : ℕ) (other : String) (b : Bool) → Keeps HasText (load_key w round other b)
    Keeps-load_key round other true = Keeps-save_loaded other _
    Keeps-load_key round other false = Keeps-pure tt

    Keeps-copy_if :
        (b : Bool) (dir : String) (keys : List (String × String))
        → Keeps HasText (if b then copy_keys dir keys else pure tt)
    Keeps-copy_if true dir keys = Keeps-copy_keys dir keys
    Keeps-copy_if false dir keys = Keeps-pure tt

    Keeps-copy_given :
        (round : ℕ) (dir : String) (o : Option (List (String × String)))
        → Keeps HasText (copy_given w round dir o)
    Keeps-copy_given round dir none = Keeps-pure tt
    Keeps-copy_given round dir (some keys) = Keeps-copy_if (w.kraftwerk_lock round) dir keys

    Keeps-check_public_keys : (round : ℕ) → Keeps HasText (check_public_keys w round)
    unfolding check_public_keys check_public_keys_tilauspalvelu check_public_keys_kraftwerk
    Keeps-check_public_keys round =
        let wanted = not (w.tilauspalvelu_jwt == "") && w.tilauspalvelu_lock round in
        Keeps-bind (gets (resolve_pubkeydir w)) _ (Keeps-gets (resolve_pubkeydir w)) λ dir.
          Keeps-then (load_key w round (join_path dir "tilauspalvelu.pub") wanted) _
            (Keeps-load_key round (join_path dir "tilauspalvelu.pub") wanted)
            (Keeps-then (copy_given w round dir w.kraftwerk_keys) (pure true)
              (Keeps-copy_given round dir w.kraftwerk_keys) (Keeps-pure true))

    Keeps-checked :
        (round : ℕ) (b : Bool)
        → Keeps HasText (elim b as (λ _. Exec Files Bool) [
          | false ↦ pure false
          | true ↦ check_public_keys w round
        ])
    Keeps-checked round true = Keeps-check_public_keys round
    Keeps-checked round false = Keeps-pure false

    Keeps-check_jwt_init : (round : ℕ) → Keeps HasText (check_jwt_init w round)
    unfolding check_jwt_init
    Keeps-check_jwt_init round =
        Keeps-bind (λ s. (check_private_key w s, s)) _ (record { at = λ s h. h })
          (Keeps-checked round)

-- A run that is over, with the private key as it was.
pub record KeyKept (path text : String) (run : Option (Result (Unit {0}) × Files)) : Type 0 where
  pub outcome : Result (Unit {0})
  pub after : Files
  pub ended : run ≡ some (outcome, after)
  pub same_key : HasText path text after

module _ (w : JwtWorld) (text : String) where
  left_alone :
      (round : ℕ) (s : Files) → HasText (private_path w) text s → create_key w round s ≡ (ok tt, s)
  unfolding create_key
  left_alone round s h = ground arith

  after_check-KeyKept :
      (round : ℕ) (d : Result Bool × Files) (rest : Option (Result (Unit {0}) × Files))
      → HasText (private_path w) text d.1
      → HasText (private_path w) text (w.others round d.1)
      → (w.lock round ≡ false → KeyKept (private_path w) text rest)
      → KeyKept (private_path w) text (after_check w round d rest)
  unfolding after_check
  after_check-KeyKept round (err e, s) rest h k later = record {
    outcome = err e;
    after = s;
    ended = refl;
    same_key = h;
  }
  after_check-KeyKept round (ok true, s) rest h k later = record {
    outcome = ok tt;
    after = s;
    ended = refl;
    same_key = h;
  }
  after_check-KeyKept round (ok false, s) rest h k later = elim (Bool-cases (w.lock round)) [
    | inl free ↦ record {
      outcome = ok tt;
      after = w.others round s;
      ended = rw free (ap some (left_alone round (w.others round s) k));
      same_key = k;
    }
    | inr taken ↦ rw taken (later taken)
  ]

  -- Where the private key is a file that other processes leave alone and the lock is free in some
  -- round, `jwt_init` ends within that round, and the file has its text still, whether the issuer
  -- can use the key or not and whatever public keys are loaded and copied.
  pub jwt_init-KeyKept :
      (rounds round : ℕ) (s : Files)
      → w.lock (round + rounds) ≡ true
      → HasText (private_path w) text s
      → ((n : ℕ) (files : Files)
          → HasText (private_path w) text files
          → HasText (private_path w) text (w.others n files))
      → KeyKept (private_path w) text (jwt_init w (suc rounds) round s)
  unfolding jwt_init
  jwt_init-KeyKept zero round s free h others =
      let kept = (Keeps-check_jwt_init (private_path w) text w round).at s h in
      after_check-KeyKept round (check_jwt_init w round s) none kept (others round _ kept)
        λ taken. absurd (ground arith)
  jwt_init-KeyKept (suc rounds) round s free h others =
      let kept = (Keeps-check_jwt_init (private_path w) text w round).at s h in
      let free' : w.lock (suc round + rounds) ≡ true =
        let e : round + suc rounds ≡ suc round + rounds = omega arith in rw (← e) free in
      after_check-KeyKept round (check_jwt_init w round s) _ kept (others round _ kept)
        λ taken. jwt_init-KeyKept rounds (suc round) _ free' (others round _ kept) others
