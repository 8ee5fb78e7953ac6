-- ===== src/Tests/Files.antt =====
-- The private key of the tokens and the files that users download, on small cases.
use python_rasenmaeher_api.Base.{find_first, false, eqb, refl, true, none, some, [], ◌∷◌}
use python_rasenmaeher_api.Exec.{value_error, ok, err}
use python_rasenmaeher_api.Db.{Store, audit}
use python_rasenmaeher_api.Db.People.Pfx
use python_rasenmaeher_api.Json.{lookup}
use python_rasenmaeher_api.Settings.{deployment_name}
use python_rasenmaeher_api.Tests.World.{world, store, person}
use python_rasenmaeher_api.Startup.Jwt.{JwtWorld, jwt_init, default_key_path}
use python_rasenmaeher_api.Startup.Jwt.Laws.{KeyKept, jwt_init-KeyKept}
use python_rasenmaeher_api.Startup.Mtls.{Files}
use python_rasenmaeher_api.Web.Enduser.{FileResponse, get_user_pfx}
use python_rasenmaeher_api.Web.Enduser.Laws.{
  asked_pem, asked_pfx, IsDownload, get_user_pfx-IsDownload,
}

-- A key that the issuer cannot use, and a lock that another process holds for one round.
abbrev jwt_world : JwtWorld
jwt_world = record {
  privkey_path = none;
  pubkey_path = some "/keys";
  tilauspalvelu_jwt = "https://order.test/key";
  kraftwerk_keys = some (("kraftwerk.pub", "k") ∷ []);
  parent = λ path. "/data";
  name = λ path. "new.pub";
  is_dir = λ path. true;
  issuer = λ path files. err value_error;
  urlopen = λ n path. ok "order";
  generate_keypair = λ n path files. (ok (path, "/new"), files);
  lock = λ n. eqb n 1;
  tilauspalvelu_lock = λ n. true;
  kraftwerk_lock = λ n. true;
  others = λ n files. files;
}

abbrev old_key : Files
old_key = (default_key_path, "unusable") ∷ []

jwt_init-KeyKept_example : KeyKept default_key_path "unusable" (jwt_init jwt_world 2 0 old_key)
unfolding lookup
jwt_init-KeyKept_example =
    jwt_init-KeyKept jwt_world "unusable" 1 0 old_key refl refl (λ n files h. h)

abbrev certified : Store
certified = record store {
  files = record { owner = 3; csr = none; key = true; cert = some "pem"; pfx = false } ∷ [];
}

abbrev container : FileResponse
container = record { owner = 3; filename = "pelle_test.pfx" }

abbrev downloaded : Store
downloaded = (get_user_pfx world "pelle_test.pfx" (some (person 3 "pelle")) certified).1

get_user_pfx-IsDownload_example :
    IsDownload world
      (some (person 3 "pelle"))
      container
      (asked_pfx "test" "pelle_test.pfx")
      (asked_pem "test" (asked_pfx "test" "pelle_test.pfx"))
unfolding deployment_name get_user_pfx Pfx.create_pfx find_first audit
get_user_pfx-IsDownload_example =
    get_user_pfx-IsDownload world "pelle_test.pfx" "test" (some (person 3 "pelle")) certified
      downloaded container refl refl
