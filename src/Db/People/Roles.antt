-- ===== src/Db/People/Roles.antt =====
-- Roles of a person: `_get_role`, `has_role`, `assign_role`, `remove_role` and `roles_set` of
-- src/rasenmaeher_api/db/people.py.
pub mod Laws
use python_rasenmaeher_api.Base.{
  if◌then◌else◌, ℕ, String, Bool, true, false, not, ◌&&◌, Option, none, some, List, [], ◌∷◌, ◌++◌,
  eqb, ◌==◌, is_some, find_first, where_rows, any,
}
use python_rasenmaeher_api.Exec.{
  ok, err, integrity_error, pure, gets, modify, raise_if, ◌>>=◌, ◌>>◌,
}
use python_rasenmaeher_api.Db.{
  Person, Role, Task, user_promoted, user_demoted, Store, Action, World, call, create_task,
}

abbrev pub is_assigned : ℕ → String → Role → Bool
is_assigned user role r = r.role == role && eqb r.user user

abbrev pub role_pk : ℕ → Role → Bool
role_pk pk r = eqb r.pk pk

unfoldable pub get_role : Person → String → Action (Option Role)
get_role person role = gets (λ s. find_first (is_assigned person.pk role) s.roles)

unfoldable pub has_role : Person → String → Action Bool
unfolding get_role
has_role person role = do obj ← get_role person role; pure (is_some obj)

-- `session.add_all([dbrole])` and the commit; the primary key is unique.
unfoldable pub insert_role : Role → Action (Unit {0})
insert_role row s =
    if any (role_pk row.pk) s.roles
    then (err integrity_error, s)
    else (ok tt, record s { roles = s.roles ++ row ∷ [] })

-- `session.delete(obj)` and the commit
unfoldable pub delete_role : Role → Action (Unit {0})
delete_role row =
    modify (λ s. record s { roles = where_rows (λ r. not (role_pk row.pk r)) s.roles })

-- The background task that tells about a role, which only "admin" has.
unfoldable pub inform : String → Task → Action (Unit {0})
unfolding create_task
inform role task s = if role == "admin" then create_task task s else (ok tt, s)

unfoldable pub roles_of : ℕ → List Role → List String
roles_of user [] = []
roles_of user (r ∷ rs) = if eqb r.user user then r.role ∷ roles_of user rs else roles_of user rs

unfoldable pub roles_set : Person → Action (List String)
unfolding roles_of
roles_set person = gets (λ s. roles_of person.pk s.roles)

module _ (w : World) where
  unfoldable pub assign_new : Person → String → Action Bool
  unfolding call insert_role inform
  assign_new person role = do
    pk ← call w.uuid4
    insert_role (record { pk = pk; user = person.pk; role = role })
    inform role (user_promoted person.pk)
    pure true

  -- True if the role was new.
  unfoldable pub assign_role : Person → String → Action Bool
  unfolding has_role assign_new inform
  assign_role person role = do
    has ← has_role person role
    elim has [
      | true ↦ do inform role (user_promoted person.pk); pure false
      | false ↦ assign_new person role
    ]

  -- True if the role was there.
  unfoldable pub remove_role : Person → String → Action Bool
  unfolding get_role delete_role inform
  remove_role person role = do
    obj ← get_role person role
    elim obj [
      | none ↦ do inform role (user_demoted person.pk); pure false
      | some row ↦ do delete_role row; inform role (user_demoted person.pk); pure true
    ]
