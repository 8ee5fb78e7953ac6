-- ===== src/Db/People/Pfx.antt =====
-- `Person.create_pfx` of src/rasenmaeher_api/db/people.py: the container with the certificate and,
-- where there is one, the key.
use python_rasenmaeher_api.Base.{ℕ, Bool, true, false, Option, none, some}
use python_rasenmaeher_api.Exec.{os_error, pure, raise, gets, or_raise, ◌>>=◌, ◌>>◌}
use python_rasenmaeher_api.Db.{Action, Person, Files, World}
use python_rasenmaeher_api.Db.People.{write_files, lift, files_of}

module _ (w : World) where
  -- `write_pfx`: without a certificate there is nothing to convert.
  unfoldable pub write_pfx : ℕ → Option Files → Action (Unit {0})
  write_pfx pk none = raise os_error
  write_pfx pk (some files) = do
    certpem ← or_raise os_error files.cert
    lift (w.convert_pem_to_pkcs12 certpem files.key)
    write_files pk (λ f. record f { pfx = true })

  abbrev pub has_pfx : Option Files → Bool
  has_pfx none = false
  has_pfx (some files) = files.pfx

  unfoldable pub create_pfx : Person → Action (Unit {0})
  unfolding write_pfx
  create_pfx person = do
    found ← gets (files_of person.pk)
    elim (has_pfx found) [ true ↦ pure tt | false ↦ write_pfx person.pk found ]
