-- ===== src/Tests/Describing.antt =====
-- The description of one product.
use python_rasenmaeher_api.Base.{String, ◌≡◌, refl, none, some, List, [], ◌∷◌, ◌==◌, if◌then◌else◌}
use python_rasenmaeher_api.Exec.{ok, http}
use python_rasenmaeher_api.Tests.World.{settings, world, store, request}
use python_rasenmaeher_api.Json.{lookup, null}
use python_rasenmaeher_api.Products.{Http}
use python_rasenmaeher_api.Settings.{Manifest, Product}
use python_rasenmaeher_api.Web.Auth
use python_rasenmaeher_api.Web.Descriptions.{
  ProductDescription, ProductDescriptionExtended, link, list_product_descriptions,
  list_product_descriptions_extended, list_admin_product_descriptions_extended,
}
use python_rasenmaeher_api.Web.Descriptions.Laws.{answers, list_product_descriptions-answers}

abbrev tak_description : ProductDescription
tak_description = record {
  shortname = "tak";
  title = "TAK";
  icon = none;
  description = "Team awareness";
  language = "en";
}

-- Only one path has a description.
abbrev describing : Http ProductDescription
describing = record {
  session = ok tt;
  request =
      λ method url body. if url == "https://tak.testapi/v1/description/en" then some null else none;
  parse_obj = λ payload. some tak_description;
  refresh_ocsp = ok tt;
}

abbrev tak : List (String × Product)
tak = ("tak", record { certcn = "tak.test"; api = "https://tak.test" }) ∷ []

abbrev deployed : Manifest
deployed = record { dns = some "test.example"; deployment = some "test"; products = some tak }

abbrev extended_description : ProductDescriptionExtended
extended_description = record {
  shortname = "tak";
  title = "TAK";
  icon = none;
  description = "Team awareness";
  language = "en";
  docs = none;
  component_ref = record { type = link; ref = "/tak" };
}

-- Only the path for administrators has an extended description.
abbrev describing_more : Http ProductDescriptionExtended
describing_more = record {
  session = ok tt;
  request = λ method url body.
      if url == "https://tak.testapi/v2/admin/description/en" then some null else none;
  parse_obj = λ payload. some extended_description;
  refresh_ocsp = ok tt;
}

list_product_descriptions-answers_example :
    (list_product_descriptions describing settings "en" ≡ ok (tak_description ∷ []))
    × (list_product_descriptions_extended describing_more settings "en" ≡ ok [])
    × (list_admin_product_descriptions_extended describing_more settings world
          (http 403)
          (request "boss")
          "en"
          store
        ≡ (ok (extended_description ∷ []), store))
unfolding lookup answers Auth.valid_user Auth.mtls_or_jwt Auth.check_payload Auth.get_dn
    Auth.is_product python_rasenmaeher_api.Settings.valid_product_cns
    python_rasenmaeher_api.Json.mem_text Auth.person_of Auth.load_user
    python_rasenmaeher_api.Db.People.by_callsign python_rasenmaeher_api.Base.find_first
    Auth.check_roles python_rasenmaeher_api.Db.People.Roles.roles_set Auth.is_subset
list_product_descriptions-answers_example =
    list_product_descriptions-answers describing describing_more settings tak "en" world (http 403)
      (request "boss") store store
      (record {
        manifest = deployed;
        loaded = refl;
        products = refl;
        found = (refl, tt);
        refreshed = refl;
        session = refl;
      })
      (record {
        manifest = deployed;
        loaded = refl;
        products = refl;
        found = (refl, tt);
        refreshed = refl;
        session = refl;
      })
      refl
