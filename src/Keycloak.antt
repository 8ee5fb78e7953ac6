-- ===== src/Keycloak.antt =====
-- src/rasenmaeher_api/kchelpers.py: the client of Keycloak. `KeycloakAdmin` is the interface of the
-- python-keycloak package; `K` is the state of the server behind it.
pub mod Groups
pub mod Users
pub mod Laws
use python_rasenmaeher_api.Base.{
  ℕ, zero, suc, ◌+◌, ◌-◌, ◌≤◌, ◌<◌, String, ◌≡◌, refl, sym, ap, ◌∙◌, ◌≢◌, ◌↔◌, ◌⊎◌, inl, inr, Bool,
  true, false, not, ◌&&◌, ◌||◌, Option, none, some, List, [], ◌∷◌, ◌++◌, map, arith, ◌==◌, eq_iff,
  eq_refl, eqb, ltb, if◌then◌else◌, eqb_refl, Bool-cases, Option-cases, is_some, All, find_first,
  where_rows, update_rows, any,
}
use python_rasenmaeher_api.Exec.{
  Error, not_found, deleted, callsign_reserved, pool_inactive, forbidden_operation, token_reuse,
  backend_error, integrity_error, runtime_error, value_error, key_error, unbound_local_error,
  attribute_error, file_exists_error, http, Result, ok, err, is_err, is_not_found, is_value_error,
  is_http_exception, status_code, Exec, pure, raise, gets, or_raise, on_error, except_for, ◌>>=◌,
  ◌>>◌, modify, raise_if,
}
use python_rasenmaeher_api.Json.{mem_text, Dict}

pub record RoleRep : Type 0 where
  pub id : String
  pub name : String

pub record SubGroup : Type 0 where
  pub id : String
  pub name : String
  pub path : String

pub record Group : Type 0 where
  pub id : String
  pub name : String
  pub path : String
  pub sub_groups : List SubGroup

-- A user's id may be missing in a call; a user is a JSON object.
pub record KeycloakAdmin (K : Type 0) : Type 0 where
  pub a_get_user : String → Exec K Dict
  pub a_get_users : String → Exec K (List Dict)
  pub a_create_user : Dict → Exec K String
  pub a_update_user : String → Dict → Exec K (Unit {0})
  pub a_delete_user : String → Exec K (Unit {0})
  pub a_get_realm_roles : String → Exec K (List RoleRep)
  pub a_get_realm_roles_of_user : Option String → Exec K (List RoleRep)
  pub a_assign_realm_roles : Option String → RoleRep → Exec K (Unit {0})
  pub a_delete_realm_roles_of_user : Option String → RoleRep → Exec K (Unit {0})
  pub a_get_groups : Exec K (List Group)
  pub a_create_group : String → Option String → Exec K String
  pub a_get_group : String → Exec K Group
  pub a_group_user_add : String → String → Exec K (Unit {0})
  pub a_create_initial_access_token : Exec K Dict

-- libpvarki's `UserCRUDRequest`
pub record UserCrudRequest : Type 0 where
  pub uuid : String
  pub callsign : String
  pub x509cert : String

pub record KcUserData : Type 0 where
  pub productdata : UserCrudRequest
  pub roles : List String
  pub kc_id : Option String
  pub kc_data : Dict

-- The attributes of `KCClient`, and the server.
pub record KcClient (K : Type 0) : Type 0 where
  pub admin_role : Option RoleRep
  pub product_initial_grps : Option (List (String × SubGroup))
  pub server : K

module _ {K A : Type 0} where
  abbrev pub on_server : Exec K A → Exec (KcClient K) A
  on_server m s = let (r, k) = m s.server in (r, record s { server = k })

-- The last one of a name counts, as in a dictionary that is built from a list.
abbrev pub is_named : String → RoleRep → Bool
is_named name rep = rep.name == name

module _ {K : Type 0} (kcadmin : KeycloakAdmin K) where
  -- `flt[0]`, which is remembered
  abbrev pub remember_role : Option RoleRep → Exec (KcClient K) RoleRep
  remember_role none = raise value_error
  remember_role (some rep) = do modify (λ s. record s { admin_role = some rep }); pure rep

  abbrev pub cached_role : Option RoleRep → Exec (KcClient K) RoleRep
  cached_role (some rep) = pure rep
  cached_role none = do
    ret ← on_server (kcadmin.a_get_realm_roles "admin")
    remember_role (find_first (is_named "admin") ret)

  -- `_check_admin_role`, which leaves the role in the client, and returns it here
  unfoldable pub check_admin_role : Exec (KcClient K) RoleRep
  unfolding find_first
  check_admin_role = do cached ← gets (λ s. s.admin_role); cached_role cached

  -- What is done for a wanted and an actual role: true if there was a change.
  abbrev pub adjust_role : Option String → RoleRep → Bool → Bool → Exec (KcClient K) Bool
  adjust_role kc_id rep true true = pure false
  adjust_role kc_id rep false false = pure false
  adjust_role kc_id rep true false = do
    on_server (kcadmin.a_assign_realm_roles kc_id rep)
    pure true
  adjust_role kc_id rep false true = do
    on_server (kcadmin.a_delete_realm_roles_of_user kc_id rep)
    pure true

  abbrev pub adjust_roles : KcUserData → RoleRep → Exec (KcClient K) Bool
  adjust_roles user rep = do
    kc_roles ← on_server (kcadmin.a_get_realm_roles_of_user user.kc_id)
    adjust_role user.kc_id rep (mem_text "admin" user.roles) (any (is_named "admin") kc_roles)

  unfoldable pub check_user_roles : KcUserData → Exec (KcClient K) Bool
  unfolding check_admin_role any mem_text
  check_user_roles user = do rep ← check_admin_role; adjust_roles user rep

  unfoldable pub client_access_token : Exec (KcClient K) Dict
  client_access_token = on_server kcadmin.a_create_initial_access_token
