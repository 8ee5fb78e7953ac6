-- ===== src/Db/People/Creation.antt =====
-- `Person.create_with_cert` and `Person._post_create` of src/rasenmaeher_api/db/people.py.
pub mod Frame
pub mod Laws
use python_rasenmaeher_api.Base.{ℕ, String, Bool, true, false, not, Option, none, some, List, ◌==◌}
use python_rasenmaeher_api.Exec.{
  callsign_reserved, backend_error, is_not_found, pure, raise, raise_if, on_error, except_for,
  ◌>>=◌, ◌>>◌,
}
use python_rasenmaeher_api.Json.{Dict, mem_text}
use python_rasenmaeher_api.Settings.{valid_product_cns}
use python_rasenmaeher_api.Db.{
  Person, user_created, refresh_ocsp, create_pfx, Action, World, call, outside, create_task,
}
use python_rasenmaeher_api.Text.{unescape_newlines}
use python_rasenmaeher_api.Cert.{verify_csr}
use python_rasenmaeher_api.Db.People.{
  text_or_none, lift, by_callsign, make_directory, remove_directory, insert, update, write_files,
}

-- `update_from_kcdata`: the column `extra` as it is after Keycloak was told.
unfoldable pub store_extra : Person → Option Dict → Action Person
store_extra person none = pure person
store_extra person (some extra) = do
  update person.pk (λ p. record p { extra = some extra })
  pure (record person { extra = some extra })

module _ (w : World) where
  -- `if csrpem and not verify_csr(csrpem, callsign)`
  unfoldable pub check_csr : Option String → String → Action (Unit {0})
  check_csr none callsign = pure tt
  check_csr (some csrpem) callsign = do
    matches ← lift (verify_csr w csrpem callsign)
    raise_if (not matches) callsign_reserved

  -- The callsign is no name of a product or of the service itself.
  unfoldable pub check_service_names : String → Action (Unit {0})
  check_service_names callsign = do
    cns ← lift (valid_product_cns w.settings)
    raise_if (mem_text callsign cns) callsign_reserved
    raise_if (callsign == w.settings.mtls_client_cert_cn) callsign_reserved

  -- `try: by_callsign; raise CallsignReserved()`, `except NotFound: pass`
  unfoldable pub check_callsign_free : String → Action (Unit {0})
  check_callsign_free callsign =
      except_for is_not_found (do by_callsign w callsign false; raise callsign_reserved) (pure tt)

  -- The request that is signed: the one that was given, or one for a fresh key pair.
  unfoldable pub obtain_csr : ℕ → String → Option String → Action String
  obtain_csr pk callsign (some csrpem) = do
    write_files pk (λ f. record f { csr = some csrpem })
    pure csrpem
  obtain_csr pk callsign none = do
    csrpem ← outside (λ n. w.create_csr n callsign)
    write_files pk (λ f. record f { csr = some csrpem; key = true })
    pure csrpem

  -- The body of the `try` block; the row is committed before the certificate is signed.
  unfoldable pub save_and_sign : Person → Option String → Action (Unit {0})
  unfolding unescape_newlines
  save_and_sign person csrpem = do
    insert person
    csr ← obtain_csr person.pk person.callsign csrpem
    certpem ← outside (λ n. w.sign_csr n csr)
    write_files person.pk (λ f. record f { cert = some (unescape_newlines certpem) })

  -- The clean-up removes the files; nothing is left for the session to roll back but a row that
  -- could not be inserted.
  unfoldable pub create_rows : Person → Option String → Action (Unit {0})
  create_rows person csrpem = do
    make_directory person.pk
    on_error (save_and_sign person csrpem) (λ e. do remove_directory person.pk; raise backend_error)

  unfoldable pub post_create : Person → Action Person
  post_create person = do
    extra ← outside (λ n. w.create_kc_user n person)
    refreshed ← store_extra person extra
    create_task (create_pfx person.pk)
    create_task refresh_ocsp
    create_task (user_created person.pk)
    pure refreshed

  unfoldable pub create_with_cert : String → Option Dict → Option String → Action Person
  create_with_cert callsign extra csrpem = do
    check_csr (text_or_none csrpem) callsign
    check_service_names callsign
    check_callsign_free callsign
    puuid ← call w.uuid4
    let person : Person = record {
      pk = puuid;
      callsign = callsign;
      extra = extra;
      deleted = none;
      revoke_reason = none;
    }
    create_rows person (text_or_none csrpem)
    post_create person
