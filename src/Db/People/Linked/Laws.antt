-- ===== src/Db/People/Linked/Laws.antt =====
-- Whoever is revoked is deleted in Keycloak too.
use python_rasenmaeher_api.Base.{ℕ, ◌+◌, String, ◌≡◌, Bool, some, update_rows}
use python_rasenmaeher_api.Exec.{Exec, ok}
use python_rasenmaeher_api.Db.{Person, World, ReasonFlag, Store}
use python_rasenmaeher_api.Keycloak.{KeycloakAdmin}
use python_rasenmaeher_api.Products.{Http}
use python_rasenmaeher_api.Settings.{Manifest, load_manifest}
use python_rasenmaeher_api.Db.People.Integration.{Linked}
use python_rasenmaeher_api.Db.People.{has_pk}

module _ (w : World) where
  -- A row as it is once its person was revoked.
  abbrev pub marked : ReasonFlag → Store → Person → Person
  marked reason s p = record p {
    deleted = some (w.utcnow s.calls);
    revoke_reason = some reason.value;
  }

module _ (w : World) (http : Http (Unit {0})) where
  -- The products can be told.
  pub record CanTell : Type 0 where
    pub manifest : Manifest
    pub loaded : load_manifest w.settings ≡ ok manifest
    pub refreshed : http.refresh_ocsp ≡ ok tt

module _ (w : World) (uuid_text : ℕ → String) (tracked : Bool) {K : Type 0}
    (kcadmin : KeycloakAdmin K) (http : Http (Unit {0})) where
  abbrev marked_store : Person → ReasonFlag → Store → Store
  marked_store person reason s = record s {
    persons = update_rows (has_pk person.pk) (marked w reason s) s.persons;
    calls = 2 + s.calls;
  }
