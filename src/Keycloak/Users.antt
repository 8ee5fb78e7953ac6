-- ===== src/Keycloak/Users.antt =====
-- Users in Keycloak: `_refresh_user`, `resolve_kc_id`, `user_kc_email`, `create_kc_user`,
-- `update_kc_user` and `delete_kc_user` of src/rasenmaeher_api/kchelpers.py. The password of a new
-- user is a random UUID as text.
use Prim.Native.String
use python_rasenmaeher_api.Base.{
  String, Bool, true, false, Option, none, some, List, [], ◌∷◌, map, ◌==◌, if◌then◌else◌, is_some,
}
use python_rasenmaeher_api.Exec.{
  is_keycloak_error, value_error, key_error, attribute_error, Result, ok, err, Exec, pure,
  except_for, ◌>>=◌, ◌>>◌, raise_if,
}
use python_rasenmaeher_api.Keycloak.{
  UserCrudRequest, KeycloakAdmin, KcClient, KcUserData, on_server, check_user_roles,
}
use python_rasenmaeher_api.Json.{
  object, bool, cons, field, insert, without_keys, str, lookup, array, nil, end, Json, Items, Dict,
  Fields,
}
use python_rasenmaeher_api.Settings.{Manifest, RmSettings}
use python_rasenmaeher_api.Products.{names}
use python_rasenmaeher_api.Keycloak.Groups.{user_initial_groups}
use python_rasenmaeher_api.Db.People.{text_or_none}

-- A JSON object as a dictionary, and back.
unfoldable pub of_fields : Fields → Dict
of_fields end = []
of_fields (field k v fields) = (k, v) ∷ of_fields fields

unfoldable pub to_fields : Dict → Fields
to_fields [] = end
to_fields ((k, v) ∷ d) = field k v (to_fields d)

unfoldable pub to_items : List String → Items
to_items [] = nil
to_items (s ∷ ss) = cons (str s) (to_items ss)

-- `KCUserData(kc_id=…)` takes text only.
abbrev pub id_text : Option Json → Result String
id_text none = err key_error
id_text (some (str id)) = ok id
id_text (some _) = err value_error

abbrev pub alt_usernames : String → List String → Json
alt_usernames callsign products =
    array (to_items (map (λ name. String.◌++◌ callsign (String.◌++◌ "_" name)) products))

-- `manifest[…]`
abbrev pub field_of : {A : Type 0} → Option A → Result A
field_of none = err key_error
field_of (some a) = ok a

abbrev pub manifest_field : {A : Type 0} → RmSettings → (Manifest → Option A) → Result A
manifest_field settings get = elim settings.manifest [
  | none ↦ err key_error
  | some m ↦ field_of (get m)
]

-- The last part of the id, if the item has one that is not empty.
abbrev pub first_id : List Dict → Option String
first_id [] = none
first_id (item ∷ _) = elim (lookup "id" item) [
  | none ↦ none
  | some (str id) ↦ some id
  | some _ ↦ none
]

abbrev pub read_only_fields : List String
read_only_fields = "createTimestamp" ∷ "createdTimestamp" ∷ "modifyTimestamp" ∷ []

-- `send_payload["attributes"]`, with the callsign where there are no attributes.
abbrev pub attributes_of : UserCrudRequest → Option Json → Result Dict
attributes_of pdata none = ok (("callsign", str pdata.callsign) ∷ [])
attributes_of pdata (some (object fields)) = ok (of_fields fields)
attributes_of pdata (some _) = err attribute_error

abbrev pub updated_attributes : UserCrudRequest → List String → Dict → Dict
updated_attributes pdata products attributes = without_keys read_only_fields (
    insert "altUsernames" (alt_usernames pdata.callsign products)
      (insert "certpem" (str pdata.x509cert) attributes))

abbrev pub updated_payload : UserCrudRequest → String → String → Dict → Dict
updated_payload pdata email deployment kc_data = insert "enabled" (bool true) (
    insert "lastName" (str deployment)
      (insert "firstName" (str pdata.callsign) (insert "email" (str email) kc_data)))

abbrev pub new_payload : UserCrudRequest → String → String → List String → String → Dict
new_payload pdata email deployment products password =
    ("username", str pdata.callsign)
    ∷ ("email", str email)
    ∷ ("firstName", str pdata.callsign)
    ∷ ("lastName", str deployment)
    ∷ ("enabled", bool true)
    ∷ ("emailVerified", bool true)
    ∷ (
      "attributes",
      object (
          to_fields (
            ("callsign", str pdata.callsign)
            ∷ ("certpem", str pdata.x509cert)
            ∷ ("altUsernames", alt_usernames pdata.callsign products)
            ∷ [])),
    )
    ∷ (
      "credentials",
      array (
          cons
            (object (
              to_fields (
                ("type", str "password")
                ∷ ("value", str password)
                ∷ ("temporary", bool false)
                ∷ [])))
            nil),
    )
    ∷ []

module _ {K : Type 0} (kcadmin : KeycloakAdmin K) (settings : RmSettings) where
  abbrev pub done : {A : Type 0} → Result A → Exec (KcClient K) A
  done r s = (r, s)

  unfoldable pub refresh_user : String → UserCrudRequest → Exec (KcClient K) KcUserData
  unfolding lookup
  refresh_user user_id pdata = do
    payload ← on_server (kcadmin.a_get_user user_id)
    id ← done (id_text (lookup "id" payload))
    pure (record { productdata = pdata; roles = []; kc_id = some id; kc_data = payload })

  -- The id of the first user with the address. It is text in Keycloak.
  unfoldable pub resolve_kc_id : String → Exec (KcClient K) (Option String)
  unfolding lookup
  resolve_kc_id email = do found ← on_server (kcadmin.a_get_users email); pure (first_id found)

  unfoldable pub user_kc_email : KcUserData → Exec (KcClient K) String
  user_kc_email user = do
    dns ← done (manifest_field settings (λ m. m.dns))
    pure (String.◌++◌ user.productdata.uuid (String.◌++◌ "@" dns))

  abbrev pub manifest_names : Exec (KcClient K) (List String)
  manifest_names =
      done
        (manifest_field settings (λ m. elim m.products [ none ↦ none | some ps ↦ some (names ps) ]))

  -- Everyone but the anonymous administrator gets the products' groups.
  abbrev pub initial_groups : KcUserData → Exec (KcClient K) (Unit {0})
  initial_groups user =
      if user.productdata.callsign == "anon_admin"
      then pure tt
      else (do user_initial_groups kcadmin settings user; pure tt)

  unfoldable pub create_enabled : String → KcUserData → Exec (KcClient K) (Option KcUserData)
  unfolding user_kc_email to_items to_fields check_user_roles user_initial_groups refresh_user names
  create_enabled password user = do
    raise_if (is_some (text_or_none user.kc_id)) value_error
    email ← user_kc_email user
    deployment ← done (manifest_field settings (λ m. m.deployment))
    products ← manifest_names
    let pdata = user.productdata
    user_id ←
        on_server (kcadmin.a_create_user (new_payload pdata email deployment products password))
    let created : KcUserData = record user { kc_id = some user_id }
    initial_groups created
    check_user_roles kcadmin created
    refreshed ← refresh_user user_id pdata
    pure (some refreshed)

  unfoldable pub create_kc_user : String → KcUserData → Exec (KcClient K) (Option KcUserData)
  unfolding create_enabled
  create_kc_user password user = elim settings.kc_enabled [
    | false ↦ pure none
    | true ↦ create_enabled password user
  ]

  -- The update of a user whose id is known; an error of Keycloak in it is logged only.
  unfoldable pub send_update : String → KcUserData → String → Exec (KcClient K) (Option KcUserData)
  unfolding check_user_roles insert lookup of_fields to_fields to_items without_keys names
      refresh_user is_keycloak_error
  send_update email user kc_id = do
    check_user_roles kcadmin (record user { kc_id = some kc_id })
    deployment ← done (manifest_field settings (λ m. m.deployment))
    let pdata = user.productdata
    let payload = updated_payload pdata email deployment user.kc_data
    attributes ← done (attributes_of pdata (lookup "attributes" payload))
    products ← manifest_names
    let sent =
        insert "attributes" (object (to_fields (updated_attributes pdata products attributes)))
          (without_keys read_only_fields payload)
    except_for is_keycloak_error (on_server (kcadmin.a_update_user kc_id sent)) (pure tt)
    refreshed ← refresh_user kc_id pdata
    pure (some refreshed)

  abbrev pub known_or_resolved : String → Option String → Exec (KcClient K) (Option String)
  known_or_resolved email (some kc_id) = pure (some kc_id)
  known_or_resolved email none = do resolved ← resolve_kc_id email; pure (text_or_none resolved)

  unfoldable pub update_enabled : String → KcUserData → Exec (KcClient K) (Option KcUserData)
  unfolding user_kc_email resolve_kc_id create_kc_user send_update
  update_enabled password user = do
    email ← user_kc_email user
    kc_id ← known_or_resolved email (text_or_none user.kc_id)
    elim kc_id [ none ↦ create_kc_user password user | some id ↦ send_update email user id ]

  unfoldable pub update_kc_user : String → KcUserData → Exec (KcClient K) (Option KcUserData)
  unfolding update_enabled
  update_kc_user password user = elim settings.kc_enabled [
    | false ↦ pure none
    | true ↦ update_enabled password user
  ]

  abbrev pub delete_known : Option String → Exec (KcClient K) Bool
  delete_known none = pure false
  delete_known (some kc_id) = do on_server (kcadmin.a_delete_user kc_id); pure true

  unfoldable pub delete_kc_user : KcUserData → Exec (KcClient K) Bool
  delete_kc_user user = elim settings.kc_enabled [
    | false ↦ pure false
    | true ↦ delete_known (text_or_none user.kc_id)
  ]
