-- ===== src/Startup/Jwt.antt =====
-- src/rasenmaeher_api/jwtinit.py: the key with which tokens are issued, and the public keys with which
-- they are verified. A file is its text under its path; directories are made where they are
-- missing, and only whether a path is one is asked. The issuer and the generator of keys are those
-- of multikeyjwt; the locks and other processes are given for each round.
pub mod Laws
use Prim.Native.String
use python_rasenmaeher_api.Base.{
  ℕ, zero, suc, ◌+◌, ◌-◌, ◌≤◌, ◌<◌, String, ◌≡◌, refl, sym, ap, ◌∙◌, ◌≢◌, ◌↔◌, ◌⊎◌, inl, inr, Bool,
  true, false, not, ◌&&◌, ◌||◌, Option, none, some, List, [], ◌∷◌, ◌++◌, map, arith, ◌==◌, eq_iff,
  eq_refl, eqb, ltb, if◌then◌else◌, eqb_refl, Bool-cases, Option-cases, is_some, All, find_first,
  where_rows, update_rows, any,
}
use python_rasenmaeher_api.Exec.{
  Error, not_found, deleted, callsign_reserved, pool_inactive, forbidden_operation, token_reuse,
  backend_error, integrity_error, runtime_error, value_error, key_error, unbound_local_error,
  attribute_error, file_exists_error, http, Result, ok, err, is_err, is_not_found, is_value_error,
  is_http_exception, status_code, Exec, pure, raise, gets, or_raise, on_error, except_for, ◌>>=◌,
  ◌>>◌, modify, raise_if,
}
use python_rasenmaeher_api.Startup.Mtls.{Files, exists, join_path}
use python_rasenmaeher_api.Json.{lookup, insert}
use python_rasenmaeher_api.Db.People.{text_or_none}

pub record JwtWorld : Type 0 where
  -- the environment: JWT_PRIVKEY_PATH and JWT_PUBKEY_PATH
  pub privkey_path : Option String
  pub pubkey_path : Option String
  pub tilauspalvelu_jwt : String
  pub kraftwerk_keys : Option (List (String × String))
  -- `pathlib`
  pub parent : String → String
  pub name : String → String
  pub is_dir : String → Bool
  -- `Issuer.singleton()`, with the path of a key or without
  pub issuer : Option String → Files → Result Bool
  pub urlopen : ℕ → String → Result String
  pub generate_keypair : ℕ → String → Files → Result (String × String) × Files
  pub lock : ℕ → Bool
  pub tilauspalvelu_lock : ℕ → Bool
  pub kraftwerk_lock : ℕ → Bool
  pub others : ℕ → Files → Files

abbrev pub default_key_path : String
default_key_path = "/data/persistent/private/rasenmaeher_jwt.key"

abbrev pub default_pub_path : String
default_pub_path = "/data/persistent/public/rasenmaeher_jwt.pub"

unfoldable pub write_bytes : String → String → Exec Files (Unit {0})
unfolding insert
write_bytes path text = modify (insert path text)

-- A file is written only where there is none.
unfoldable pub write_missing : String → String → Exec Files (Unit {0})
unfolding write_bytes lookup
write_missing path text = do
  there ← gets (exists path)
  elim there [ true ↦ pure tt | false ↦ write_bytes path text ]

-- The loop of `_check_public_keys_kraftwerk`
unfoldable pub copy_keys : String → List (String × String) → Exec Files (Unit {0})
unfolding write_missing
copy_keys pubkeydir [] = pure tt
copy_keys pubkeydir ((name, text) ∷ keys) = do
  write_missing (join_path pubkeydir name) text
  copy_keys pubkeydir keys

module _ (w : JwtWorld) where
  abbrev pub private_path : String
  private_path = elim (text_or_none w.privkey_path) [ none ↦ default_key_path | some path ↦ path ]

  abbrev pub given_pubkeydir : Option String → Files → String
  given_pubkeydir none files = w.parent default_pub_path
  given_pubkeydir (some path) files =
      if exists path files && not (w.is_dir path) then w.parent path else path

  unfoldable pub resolve_pubkeydir : Files → String
  unfolding lookup
  resolve_pubkeydir files = given_pubkeydir (text_or_none w.pubkey_path) files

  -- A key that cannot be loaded is logged only.
  abbrev pub save_loaded : String → Result String → Exec Files (Unit {0})
  save_loaded path (ok text) = write_missing path text
  save_loaded path (err e) = pure tt

  abbrev pub load_key : ℕ → String → Bool → Exec Files (Unit {0})
  load_key round path true = save_loaded path (w.urlopen round w.tilauspalvelu_jwt)
  load_key round path false = pure tt

  -- Nothing is loaded if the key is there, there is no address, or another process has the lock.
  unfoldable pub check_public_keys_tilauspalvelu : ℕ → String → Exec Files (Unit {0})
  unfolding write_missing
  check_public_keys_tilauspalvelu round pubkeydir =
      load_key round (join_path pubkeydir "tilauspalvelu.pub")
        (not (w.tilauspalvelu_jwt == "") && w.tilauspalvelu_lock round)

  abbrev pub copy_given : ℕ → String → Option (List (String × String)) → Exec Files (Unit {0})
  copy_given round pubkeydir none = pure tt
  copy_given round pubkeydir (some keys) =
      if w.kraftwerk_lock round then copy_keys pubkeydir keys else pure tt

  unfoldable pub check_public_keys_kraftwerk : ℕ → String → Exec Files (Unit {0})
  unfolding copy_keys
  check_public_keys_kraftwerk round pubkeydir = copy_given round pubkeydir w.kraftwerk_keys

  unfoldable pub check_public_keys : ℕ → Exec Files Bool
  unfolding resolve_pubkeydir check_public_keys_tilauspalvelu check_public_keys_kraftwerk
  check_public_keys round = do
    pubkeydir ← gets resolve_pubkeydir
    check_public_keys_tilauspalvelu round pubkeydir
    check_public_keys_kraftwerk round pubkeydir
    pure true

  -- The key at the default path, tried after a `ValueError`.
  abbrev pub second_try : Result Bool → Result Bool
  second_try (ok b) = ok b
  second_try (err e) = if is_value_error e then ok false else err e

  abbrev pub first_try : Result Bool → Result Bool → Result Bool
  first_try (ok b) second = ok b
  first_try (err e) second = if is_value_error e then second_try second else err e

  unfoldable pub check_private_key : Files → Result Bool
  unfolding is_value_error
  check_private_key files = first_try (w.issuer none files) (w.issuer (some default_key_path) files)

  unfoldable pub check_jwt_init : ℕ → Exec Files Bool
  unfolding check_private_key check_public_keys
  check_jwt_init round = do
    usable ← (λ s. (check_private_key s, s))
    elim usable [ false ↦ pure false | true ↦ check_public_keys round ]

  -- The copy of the new public key, and the other public keys.
  unfoldable pub publish_key : ℕ → String × String → Exec Files (Unit {0})
  unfolding resolve_pubkeydir write_bytes lookup check_public_keys
  publish_key round paths = do
    has_private ← gets (exists paths.0)
    raise_if (not has_private) runtime_error
    found ← gets (lookup paths.1)
    text ← or_raise runtime_error found
    pubkeydir ← gets resolve_pubkeydir
    write_bytes (join_path pubkeydir (w.name paths.1)) text
    check_public_keys round
    pure tt

  -- Under the lock: a key that exists is left.
  unfoldable pub create_key : ℕ → Exec Files (Unit {0})
  unfolding publish_key lookup
  create_key round = do
    there ← gets (exists private_path)
    elim there [
      | true ↦ pure tt
      | false ↦ do paths ← w.generate_keypair round private_path; publish_key round paths
    ]

  -- A round of the recursion that waits for the lock; `none` is a run that is not over.
  unfoldable pub after_check :
      ℕ
      → Result Bool × Files
      → Option (Result (Unit {0}) × Files)
      → Option (Result (Unit {0}) × Files)
  unfolding create_key
  after_check round (err e, s) rest = some (err e, s)
  after_check round (ok true, s) rest = some (ok tt, s)
  after_check round (ok false, s) rest =
      if w.lock round then some (create_key round (w.others round s)) else rest

  unfoldable pub jwt_init : ℕ → ℕ → Files → Option (Result (Unit {0}) × Files)
  unfolding check_jwt_init after_check
  jwt_init zero round s = none
  jwt_init (suc fuel) round s =
      let checked = check_jwt_init round s in
      let rest = jwt_init fuel (suc round) (w.others round checked.1) in
      after_check round checked rest
