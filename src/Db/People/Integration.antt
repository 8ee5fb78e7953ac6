-- ===== src/Db/People/Integration.antt =====
-- What is told to Keycloak and the products about people, and what Keycloak answers: `productapidata`,
-- `get_kcdata`, `update_from_kcdata`, the calls of `_post_create` to Keycloak, `post_user_crud`,
-- `user_created`, `user_revoked`, `user_promoted` and `user_demoted` of
-- src/rasenmaeher_api/db/people.py. `uuid_text` is a UUID as text. `tracked` says whether the ORM
-- notices that a dictionary in a JSON column was changed in place; it always notices that another
-- dictionary was put there.
pub mod Laws
use Prim.Native.String
use python_rasenmaeher_api.Base.{
  ℕ, zero, suc, ◌+◌, ◌-◌, ◌≤◌, ◌<◌, String, ◌≡◌, refl, sym, ap, ◌∙◌, ◌≢◌, ◌↔◌, ◌⊎◌, inl, inr, Bool,
  true, false, not, ◌&&◌, ◌||◌, Option, none, some, List, [], ◌∷◌, ◌++◌, map, arith, ◌==◌, eq_iff,
  eq_refl, eqb, ltb, if◌then◌else◌, eqb_refl, Bool-cases, Option-cases, is_some, All, find_first,
  where_rows, update_rows, any,
}
use python_rasenmaeher_api.Exec.{
  db_error, Error, not_found, deleted, callsign_reserved, pool_inactive, forbidden_operation,
  token_reuse, backend_error, integrity_error, runtime_error, value_error, key_error,
  unbound_local_error, attribute_error, file_exists_error, http, Result, ok, err, is_err,
  is_not_found, is_value_error, is_http_exception, status_code, Exec, pure, raise, gets, or_raise,
  on_error, except_for, ◌>>=◌, ◌>>◌, modify, raise_if,
}
use python_rasenmaeher_api.Keycloak.{UserCrudRequest, KeycloakAdmin, KcClient, KcUserData}
use python_rasenmaeher_api.Db.{Person, World, Files, Action, Store}
use python_rasenmaeher_api.Json.{
  without_keys, null, field, end, insert, str, object, lookup, Json, Dict,
}
use python_rasenmaeher_api.Text.{escape_newlines}
use python_rasenmaeher_api.Products.{post_to_all_products, method_to_all_products, Http}
use python_rasenmaeher_api.Keycloak.Users.{
  to_fields, create_kc_user, update_kc_user, delete_kc_user, of_fields,
}
use python_rasenmaeher_api.Db.People.{has_pk, lift, update, by_callsign, files_of}
use python_rasenmaeher_api.Db.People.Roles.{roles_set}

-- The database and the client of Keycloak.
pub record Linked (K : Type 0) : Type 0 where
  pub store : Store
  pub keycloak : KcClient K

module _ {K A : Type 0} where
  abbrev pub in_store : Action A → Exec (Linked K) A
  in_store m s = let (r, t) = m s.store in (r, record s { store = t })

  abbrev pub in_keycloak : Exec (KcClient K) A → Exec (Linked K) A
  in_keycloak m s = let (r, t) = m s.keycloak in (r, record s { keycloak = t })

abbrev pub cert_of : Option Files → Option String
cert_of none = none
cert_of (some files) = files.cert

abbrev pub cert_or_none_found : Option String → String
cert_or_none_found none = "NOCERTFOUND"
cert_or_none_found (some certpem) = certpem

-- `self.extra` with the keys that `get_kcdata` puts there.
abbrev pub extra_or_empty : Option Dict → Dict
extra_or_empty none = []
extra_or_empty (some extra) = extra

abbrev pub set_default : String → Json → Dict → Dict
set_default key value d = if is_some (lookup key d) then d else insert key value d

abbrev pub with_kc_keys : Option Dict → Dict
with_kc_keys extra =
    set_default "kc_data" (object end) (set_default "kc_uuid" null (extra_or_empty extra))

-- `KCUserData` takes text or `None` as the id, and an object as the data.
abbrev pub kc_id_of : Option Json → Result (Option String)
kc_id_of (some null) = ok none
kc_id_of (some (str id)) = ok (some id)
kc_id_of _ = err value_error

abbrev pub kc_data_of : Option Json → Result Dict
kc_data_of (some (object fields)) = ok (of_fields fields)
kc_data_of _ = err value_error

-- A callsign is looked for as text.
abbrev pub text_of : Option Json → Result String
text_of none = err key_error
text_of (some (str s)) = ok s
text_of (some _) = err db_error

abbrev pub first_given : Option Json → Option Json → Option Json
first_given (some v) o = some v
first_given none o = o

abbrev pub required : Option Json → Result Json
required none = err key_error
required (some v) = ok v

-- `user.model_dump()`
abbrev pub dump_user : UserCrudRequest → Json
dump_user user = object (
    field "uuid" (str user.uuid)
      (field "callsign" (str user.callsign) (field "x509cert" (str user.x509cert) end)))

module _ (w : World) (uuid_text : ℕ → String) (tracked : Bool) where
  unfoldable pub productapidata : Person → Action UserCrudRequest
  unfolding escape_newlines
  productapidata person = do
    files ← gets (files_of person.pk)
    pure (record {
      uuid = uuid_text person.pk;
      callsign = person.callsign;
      x509cert = escape_newlines (cert_or_none_found (cert_of files));
    })

  unfoldable pub get_kcdata : Person → Action KcUserData
  unfolding productapidata lookup insert of_fields roles_set
  get_kcdata person = do
    pdata ← productapidata person
    let extra = with_kc_keys person.extra
    roles ← roles_set person
    kc_id ← lift (kc_id_of (lookup "kc_uuid" extra))
    kc_data ← lift (kc_data_of (lookup "kc_data" extra))
    pure (record { productdata = pdata; roles = roles; kc_id = kc_id; kc_data = kc_data })

  -- The row that Keycloak's data is about, and whether its `extra` was replaced.
  unfoldable pub person_of_kcdata : Dict → Option Person → Action (Person × Bool)
  unfolding lookup by_callsign
  person_of_kcdata kcdata (some person) = pure (person, false)
  person_of_kcdata kcdata none = do
    callsign ← lift (text_of (first_given (lookup "callsign" kcdata) (lookup "username" kcdata)))
    person ← by_callsign w callsign false
    pure (record person { extra = some (extra_or_empty person.extra) }, not (is_some person.extra))

  -- Keycloak's data without the copies of our own columns.
  unfoldable pub own_kcdata : Dict → Dict
  unfolding without_keys
  own_kcdata kcdata = without_keys ("callsign" ∷ "certpem" ∷ []) kcdata

  abbrev pub merged_extra : Dict → Json → Dict → Dict
  merged_extra kcdata id extra =
      insert "kc_data" (object (to_fields (own_kcdata kcdata))) (insert "kc_uuid" id extra)

  -- `person.extra.update(…)`: an `extra` that is `None` has no `update`.
  unfoldable pub merge_kcdata : Dict → Option Dict → Action Dict
  unfolding lookup insert to_fields own_kcdata
  merge_kcdata kcdata given = do
    extra ← or_raise attribute_error given
    id ← lift (required (lookup "id" (own_kcdata kcdata)))
    pure (merged_extra kcdata id extra)

  -- The commit writes `extra` if the change was noticed; then the row is read again.
  unfoldable pub commit_extra : ℕ → Dict → Bool → Action Person
  unfolding find_first update_rows
  commit_extra pk extra noticed = do
    elim noticed [ false ↦ pure tt | true ↦ update pk (λ row. record row { extra = some extra }) ]
    found ← gets (λ s. find_first (has_pk pk) s.persons)
    or_raise backend_error found

  abbrev pub save_kcdata : Dict → Bool → Person × Bool → Action Person
  save_kcdata kcdata replaced found = do
    extra ← merge_kcdata kcdata (found.0).extra
    commit_extra (found.0).pk extra (tracked || replaced || found.1)

  -- `replaced` says whether the `extra` of the given person was replaced before.
  unfoldable pub update_from_kcdata : Dict → Option Person → Bool → Action Person
  unfolding person_of_kcdata merge_kcdata commit_extra
  update_from_kcdata kcdata given replaced = do
    found ← person_of_kcdata kcdata given
    save_kcdata kcdata replaced found

  module _ {K : Type 0} (kcadmin : KeycloakAdmin K) (http : Http (Unit {0})) where
    abbrev pub raised : {A : Type 0} → Result A → Exec (Linked K) (Unit {0})
    raised (ok a) = pure tt
    raised (err e) = raise e

    -- The responses are not collected.
    unfoldable pub post_user_crud : UserCrudRequest → String → Exec (Linked K) (Unit {0})
    unfolding method_to_all_products
    post_user_crud userinfo endpoint_suffix = raised (
        post_to_all_products http w.settings (String.◌++◌ "api/v1/users/" endpoint_suffix)
          (dump_user userinfo) false)

    unfoldable pub tell_products : Person → String → Exec (Linked K) (Unit {0})
    unfolding productapidata post_user_crud
    tell_products person endpoint_suffix = do
      pdata ← in_store (productapidata person)
      post_user_crud pdata endpoint_suffix

    abbrev pub user_created : Person → Exec (Linked K) (Unit {0})
    user_created person = tell_products person "created"

    unfoldable pub user_revoked : Person → Exec (Linked K) (Unit {0})
    unfolding tell_products get_kcdata delete_kc_user
    user_revoked person = do
      tell_products person "revoked"
      kcdata ← in_store (get_kcdata person)
      in_keycloak (delete_kc_user kcadmin w.settings kcdata)
      pure tt

    -- The row of the user that Keycloak returned is looked up again.
    abbrev pub refresh_row : Option KcUserData → Exec (Linked K) (Unit {0})
    refresh_row none = pure tt
    refresh_row (some kcuser) = do in_store (update_from_kcdata kcuser.kc_data none false); pure tt

    unfoldable pub role_changed : String → Person → String → Exec (Linked K) (Unit {0})
    unfolding get_kcdata update_kc_user update_from_kcdata tell_products
    role_changed password person endpoint_suffix = do
      kcdata ← in_store (get_kcdata person)
      kcuser ← in_keycloak (update_kc_user kcadmin w.settings password kcdata)
      refresh_row kcuser
      tell_products person endpoint_suffix

    abbrev pub user_promoted : String → Person → Exec (Linked K) (Unit {0})
    user_promoted password person = role_changed password person "promoted"

    abbrev pub user_demoted : String → Person → Exec (Linked K) (Unit {0})
    user_demoted password person = role_changed password person "demoted"

    abbrev pub store_kcdata : Person → Option KcUserData → Exec (Linked K) Person
    store_kcdata person none = pure (record person { extra = some (with_kc_keys person.extra) })
    store_kcdata person (some kcdata) = in_store (
        update_from_kcdata kcdata.kc_data
          (some (record person { extra = some (with_kc_keys person.extra) }))
          (not (is_some person.extra)))

    -- What `_post_create` does before it starts the background tasks; `get_kcdata` leaves its keys
    -- in the person's `extra`, and an empty dictionary if there was none.
    unfoldable pub tell_keycloak : String → Person → Exec (Linked K) Person
    unfolding get_kcdata create_kc_user update_from_kcdata insert
    tell_keycloak password person = do
      kcdata ← in_store (get_kcdata person)
      created ← in_keycloak (create_kc_user kcadmin w.settings password kcdata)
      store_kcdata person created
