-- ===== src/Web/Enduser.antt =====
-- src/rasenmaeher_api/web/api/enduserpfx/views.py: users download their certificate, as PEM or in a
-- PKCS12 container. `ValidUser` gives the person; it is missing for a product's certificate. A
-- response is the file's owner and its name.
pub mod Laws
use Prim.Native.String
use python_rasenmaeher_api.Db.People.Pfx
use python_rasenmaeher_api.Base.{ℕ, String, Bool, true, false, Option, none, some, ◌==◌, is_some}
use python_rasenmaeher_api.Exec.{attribute_error, http, pure, or_raise, ◌>>=◌, ◌>>◌}
use python_rasenmaeher_api.Text.{strip_suffix}
use python_rasenmaeher_api.Db.{success, audit, Action, Person, World}
use python_rasenmaeher_api.Settings.{deployment_name}
use python_rasenmaeher_api.Web.{refuse}
use python_rasenmaeher_api.Db.People.{lift}

pub record FileResponse : Type 0 where
  pub owner : ℕ
  pub filename : String

-- `if callsign.endswith(suffix): callsign = callsign[: -len(suffix)]`
unfoldable pub without_suffix : String → String → String
unfolding strip_suffix
without_suffix suffix s = elim (strip_suffix suffix s) [ none ↦ s | some t ↦ t ]

unfoldable pub has_suffix : String → String → Bool
unfolding strip_suffix
has_suffix suffix s = is_some (strip_suffix suffix s)

-- The ending of the file names of a deployment.
abbrev pub deplosuffix : String → String → String
deplosuffix deployment extension = String.◌++◌ "_" (String.◌++◌ deployment extension)

module _ (w : World) where
  -- `if person.callsign != callsign`
  abbrev pub require_own : String → Bool → Action (Unit {0})
  require_own callsign true = pure tt
  require_own callsign false =
      refuse "certificate_download" (some callsign) "CALLSIGN_MISMATCH" (http 403)

  abbrev pub own_response : String → String → Person → String → FileResponse
  own_response extension callsign person deployment = record {
    owner = person.pk;
    filename = String.◌++◌ callsign (deplosuffix deployment extension);
  }

  abbrev pub respond : String → String → Person → Action FileResponse
  respond extension callsign person = do
    deployment ← lift (deployment_name w.settings)
    pure (own_response extension callsign person deployment)

  -- The download of the own file, which is created if it is not there.
  unfoldable pub create_and_respond : String → String → Person → Action FileResponse
  unfolding deployment_name
  create_and_respond extension callsign person = do
    Pfx.create_pfx w person
    audit "certificate_download" success none none
    respond extension callsign person

  unfoldable pub send_file : String → String → Person → Action FileResponse
  unfolding create_and_respond
  send_file extension callsign person = do
    require_own callsign (person.callsign == callsign)
    create_and_respond extension callsign person

  unfoldable pub get_user_pem : String → Option Person → Action FileResponse
  unfolding without_suffix deployment_name send_file
  get_user_pem name person = do
    deployment ← lift (deployment_name w.settings)
    let callsign = without_suffix ".pem" (without_suffix (deplosuffix deployment ".pem") name)
    user ← or_raise attribute_error person
    send_file ".pem" callsign user

  -- A name that ends with ".pem" is the other endpoint's.
  unfoldable pub get_user_pfx : String → Option Person → Action FileResponse
  unfolding without_suffix has_suffix deployment_name get_user_pem
  get_user_pfx name person = do
    deployment ← lift (deployment_name w.settings)
    let callsign = without_suffix ".pfx" (without_suffix (deplosuffix deployment ".pfx") name)
    elim (has_suffix ".pem" callsign) [
      | true ↦ get_user_pem callsign person
      | false ↦ do user ← or_raise attribute_error person; send_file ".pfx" callsign user
    ]
