-- ===== src/Web/Instructions.antt =====
-- src/rasenmaeher_api/web/api/instructions/views.py: the instructions that the products give to users
-- and administrators. `ValidUser` gives the person, who is missing for a product's certificate.
use Prim.Native.String
use python_rasenmaeher_api.Base.{ℕ, String, true, Option, none, some, List}
use python_rasenmaeher_api.Exec.{
  os_error, value_error, attribute_error, http, Result, ok, err, pure, raise, gets, or_raise, ◌>>=◌,
}
use python_rasenmaeher_api.Db.{Action, Person}
use python_rasenmaeher_api.Products.{
  post_to_product, collected, post_to_all_products, get_from_all_products, method_to_product,
  method_to_all_products, AllResponses, Http,
}
use python_rasenmaeher_api.Settings.{RmSettings}
use python_rasenmaeher_api.Keycloak.{UserCrudRequest}
use python_rasenmaeher_api.Db.People.{lift, files_of}
use python_rasenmaeher_api.Db.People.Integration.{cert_of, dump_user}

-- The user as the products are told; without a certificate there is no such file.
unfoldable pub user_request : (ℕ → String) → Option Person → Action UserCrudRequest
user_request uuid_text none = raise attribute_error
user_request uuid_text (some person) = do
  files ← gets (files_of person.pk)
  certpem ← or_raise os_error (cert_of files)
  pure (record { uuid = uuid_text person.pk; callsign = person.callsign; x509cert = certpem })

module _ {A : Type 0} (client : Http A) (settings : RmSettings) where
  -- `if responses is None`
  abbrev pub all_or_broken : Result (AllResponses A) → Action (List (String × Option A))
  all_or_broken (err e) = raise e
  all_or_broken (ok (collected responses)) = pure responses
  all_or_broken (ok _) = raise value_error

  unfoldable pub admin_instruction_fragment : Action (List (String × Option A))
  unfolding method_to_all_products
  admin_instruction_fragment =
      all_or_broken (get_from_all_products client settings "api/v1/admins/fragment" true)

  unfoldable pub user_instruction_fragment :
      (ℕ → String) → Option Person → Action (List (String × Option A))
  unfolding user_request method_to_all_products
  user_instruction_fragment uuid_text person = do
    user ← user_request uuid_text person
    all_or_broken
        (post_to_all_products client settings "api/v1/clients/fragment" (dump_user user) true)

  -- The answer of one product to a user's request.
  unfoldable pub ask_product : (ℕ → String) → Option Person → String → String → Action A
  unfolding user_request method_to_product
  ask_product uuid_text person product endpoint_url = do
    user ← user_request uuid_text person
    response ← lift (post_to_product client settings product endpoint_url (dump_user user))
    or_raise (http 404) response

  abbrev pub get_product_instructions : (ℕ → String) → Option Person → String → String → Action A
  get_product_instructions uuid_text person product language =
      ask_product uuid_text person product (String.◌++◌ "api/v1/instructions/" language)

  abbrev pub get_product_data : (ℕ → String) → Option Person → String → Action A
  get_product_data uuid_text person product =
      ask_product uuid_text person product "api/v2/clients/data"

  abbrev pub get_admin_product_data : (ℕ → String) → Option Person → String → Action A
  get_admin_product_data uuid_text person product =
      ask_product uuid_text person product "api/v2/admin/clients/data"
