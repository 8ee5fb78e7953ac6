-- ===== src/Keycloak/Groups.antt =====
-- `KCClient.ensure_product_groups` and `user_initial_groups` of src/rasenmaeher_api/kchelpers.py.
use Prim.Native.String
use python_rasenmaeher_api.Base.{
  String, Bool, true, false, ◌||◌, Option, none, some, List, [], ◌∷◌, map,
}
use python_rasenmaeher_api.Exec.{key_error, Result, ok, err, Exec, pure, gets, ◌>>=◌, ◌>>◌, modify}
use python_rasenmaeher_api.Keycloak.{
  Group, SubGroup, KeycloakAdmin, KcClient, KcUserData, on_server,
}
use python_rasenmaeher_api.Json.{lookup, insert, update}
use python_rasenmaeher_api.Settings.{RmSettings}
use python_rasenmaeher_api.Products.{names, products_of}
use python_rasenmaeher_api.Db.People.{text_or_none}

-- `{group["name"]: group for group in groups}`
unfoldable pub groups_by_name : List Group → List (String × Group)
groups_by_name groups = update [] (map (λ (g : Group). (g.name, g)) groups)

unfoldable pub subgroups_by_name : List SubGroup → List (String × SubGroup)
subgroups_by_name groups = update [] (map (λ (g : SubGroup). (g.name, g)) groups)

abbrev pub as_subgroup : Group → SubGroup
as_subgroup g = record { id = g.id; name = g.name; path = g.path }

module _ {K : Type 0} (kcadmin : KeycloakAdmin K) where
  -- The group of a product, and whether it was created.
  abbrev pub root_group : String → Option Group → Exec (KcClient K) (Group × Bool)
  root_group productname (some group) = pure (group, false)
  root_group productname none = do
    new_id ← on_server (kcadmin.a_create_group productname none)
    group ← on_server (kcadmin.a_get_group new_id)
    pure (group, true)

  abbrev pub child_group : String → String → Option SubGroup → Exec (KcClient K) (SubGroup × Bool)
  child_group subgrpname parent (some group) = pure (group, false)
  child_group subgrpname parent none = do
    new_id ← on_server (kcadmin.a_create_group subgrpname (some parent))
    group ← on_server (kcadmin.a_get_group new_id)
    pure (as_subgroup group, true)

  abbrev pub given_groups : Option (List (String × SubGroup)) → List (String × SubGroup)
  given_groups none = []
  given_groups (some groups) = groups

  -- `self._product_initial_grps[productname] = …`
  unfoldable pub set_initial : String → SubGroup → Exec (KcClient K) (Unit {0})
  unfolding insert
  set_initial productname group = modify (λ s. record s {
    product_initial_grps = some (insert productname group (given_groups s.product_initial_grps));
  })

  -- One product of the manifest: its group, and the groups "_default" and "_admins" below it.
  unfoldable pub ensure_group : List (String × Group) → String → Exec (KcClient K) Bool
  unfolding lookup subgroups_by_name set_initial
  ensure_group by_name productname = do
    root ← root_group productname (lookup productname by_name)
    let subgroups = subgroups_by_name (root.0).sub_groups
    let default_name = String.◌++◌ productname "_default"
    let admins_name = String.◌++◌ productname "_admins"
    initial ← child_group default_name (root.0).id (lookup default_name subgroups)
    set_initial productname initial.0
    admins ← child_group admins_name (root.0).id (lookup admins_name subgroups)
    pure (root.1 || initial.1 || admins.1)

  unfoldable pub ensure_groups : List (String × Group) → List String → Exec (KcClient K) Bool
  unfolding ensure_group
  ensure_groups by_name [] = pure false
  ensure_groups by_name (productname ∷ names) = do
    created ← ensure_group by_name productname
    rest ← ensure_groups by_name names
    pure (created || rest)

  module _ (settings : RmSettings) where
    abbrev pub product_names : Result (List String)
    product_names = elim (products_of settings) [ none ↦ err key_error | some ps ↦ ok (names ps) ]

    unfoldable pub ensure_product_groups : Exec (KcClient K) (Option Bool)
    unfolding ensure_groups groups_by_name names
    ensure_product_groups = elim (settings.kc_enabled) [
      | false ↦ pure none
      | true ↦ do
        groups ← on_server kcadmin.a_get_groups
        all ← (λ s. (product_names, s))
        created ← ensure_groups (groups_by_name groups) all
        pure (some created)
    ]

    unfoldable pub add_to_groups :
        String → List (String × SubGroup) → Exec (KcClient K) (Option Bool)
    add_to_groups kc_id [] = pure (some true)
    add_to_groups kc_id ((productname, group) ∷ groups) = do
      on_server (kcadmin.a_group_user_add kc_id group.id)
      add_to_groups kc_id groups

    -- Without groups there is nothing to assign.
    abbrev pub add_to_initial : String → List (String × SubGroup) → Exec (KcClient K) (Option Bool)
    add_to_initial kc_id [] = pure none
    add_to_initial kc_id (group ∷ groups) = add_to_groups kc_id (group ∷ groups)

    abbrev pub assign_groups : Option String → Exec (KcClient K) (Option Bool)
    assign_groups none = pure none
    assign_groups (some kc_id) = do
      ensure_product_groups
      groups ← gets (λ s. given_groups s.product_initial_grps)
      add_to_initial kc_id groups

    unfoldable pub user_initial_groups : KcUserData → Exec (KcClient K) (Option Bool)
    unfolding ensure_product_groups add_to_groups
    user_initial_groups user = elim (settings.kc_enabled) [
      | false ↦ pure none
      | true ↦ assign_groups (text_or_none user.kc_id)
    ]
