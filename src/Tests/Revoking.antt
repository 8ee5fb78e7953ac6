-- ===== src/Tests/Revoking.antt =====
-- A person whose Keycloak id is recorded is revoked.
use python_rasenmaeher_api.Base.{ℕ, String, Bool, not, ◌&&◌, none, some, [], ◌∷◌, ◌==◌}
use python_rasenmaeher_api.Exec.{ok, pure, raise, keycloak_error}
use python_rasenmaeher_api.Tests.World.{store, person}
use python_rasenmaeher_api.Keycloak.{KeycloakAdmin}
use python_rasenmaeher_api.Json.{str, object, end}
use python_rasenmaeher_api.Products.{Http}
use python_rasenmaeher_api.Db.{Person}
use python_rasenmaeher_api.Db.People.Integration.{Linked}

abbrev Users : Type 0
Users = String → Bool

abbrev after : Users → String → Users
after users id = λ user. users user && not (user == id)

abbrev server : KeycloakAdmin Users
server = record {
  a_get_user = λ id. raise keycloak_error;
  a_get_users = λ email. pure [];
  a_create_user = λ payload. pure "id";
  a_update_user = λ id payload. pure tt;
  a_delete_user = λ id users. (ok tt, after users id);
  a_get_realm_roles = λ search. pure [];
  a_get_realm_roles_of_user = λ user. pure [];
  a_assign_realm_roles = λ user rep. pure tt;
  a_delete_realm_roles_of_user = λ user rep. pure tt;
  a_get_groups = pure [];
  a_create_group = λ name parent. pure "id";
  a_get_group = λ id. raise keycloak_error;
  a_group_user_add = λ user group. pure tt;
  a_create_initial_access_token = pure [];
}

abbrev client : Http (Unit {0})
client = record {
  session = ok tt;
  request = λ method path body. none;
  parse_obj = λ payload. some tt;
  refresh_ocsp = ok tt;
}

abbrev known : Person
known = record (person 3 "pelle") {
  extra = some (("kc_uuid", str "kc3") ∷ ("kc_data", object end) ∷ []);
}

-- The id is in the row, and not in the person that is at hand.
abbrev linked : Linked Users
linked = record {
  store = record store { persons = known ∷ [] };
  keycloak = record {
    admin_role = none;
    product_initial_grps = none;
    server = λ user. user == "kc3";
  };
}

abbrev uuid_text : ℕ → String
uuid_text n = "3"
