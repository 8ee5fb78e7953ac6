-- ===== src/Web/People.antt =====
-- src/rasenmaeher_api/web/api/people/views.py: people are listed and revoked.
pub mod Laws
use python_rasenmaeher_api.Base.{
  ℕ, zero, suc, ◌+◌, ◌-◌, ◌≤◌, ◌<◌, String, ◌≡◌, refl, sym, ap, ◌∙◌, ◌≢◌, ◌↔◌, ◌⊎◌, inl, inr, Bool,
  true, false, not, ◌&&◌, ◌||◌, Option, none, some, List, [], ◌∷◌, ◌++◌, map, arith, ◌==◌, eq_iff,
  eq_refl, eqb, ltb, if◌then◌else◌, eqb_refl, Bool-cases, Option-cases, is_some, All, find_first,
  where_rows, update_rows, any,
}
use python_rasenmaeher_api.Exec.{
  Error, not_found, deleted, callsign_reserved, pool_inactive, forbidden_operation, token_reuse,
  backend_error, integrity_error, runtime_error, value_error, key_error, unbound_local_error,
  attribute_error, file_exists_error, http, Result, ok, err, is_err, is_not_found, is_value_error,
  is_http_exception, status_code, Exec, pure, raise, gets, or_raise, on_error, except_for, ◌>>=◌,
  ◌>>◌, modify, raise_if,
}
use python_rasenmaeher_api.Json.{Dict}
use python_rasenmaeher_api.Db.{Person, Action, World, audit, success, failure}
use python_rasenmaeher_api.Db.People.{by_callsign}
use python_rasenmaeher_api.Db.People.Lookup.{list, by_role}
use python_rasenmaeher_api.Db.People.Roles.{roles_set}
use python_rasenmaeher_api.Db.People.Revocation.{delete}
use python_rasenmaeher_api.Web.{refuse, found_or_404}
use python_rasenmaeher_api.Web.Auth.{Request, admin}

pub record CallSignPerson : Type 0 where
  pub callsign : String
  pub roles : List String
  pub extra : Option Dict
  pub revoked : Option ℕ

abbrev pub list_item : List String → Option ℕ → Person → CallSignPerson
list_item roles revoked p = record {
  callsign = p.callsign;
  roles = roles;
  extra = p.extra;
  revoked = revoked;
}

-- `if dbperson.callsign == "anon_admin": continue`
abbrev pub is_shown : Person → Bool
is_shown p = not (p.callsign == "anon_admin")

-- The items with their roles; the date of the revocation as the list has it.
unfoldable pub list_items : (Person → Option ℕ) → List Person → Action (List CallSignPerson)
list_items revoked [] = pure []
list_items revoked (p ∷ ps) = do
  rest ← list_items revoked ps
  roles ← roles_set p
  pure (if is_shown p then list_item roles (revoked p) p ∷ rest else rest)

unfoldable pub revoked_items : List Person → List CallSignPerson
revoked_items [] = []
revoked_items (p ∷ ps) =
    let rest = revoked_items ps in if is_shown p then list_item [] p.deleted p ∷ rest else rest

abbrev pub is_backend_error : Error → Bool
is_backend_error backend_error = true
is_backend_error _ = false

unfoldable pub report_deleted : String → Bool → Action Bool
report_deleted callsign done = elim done [
  | true ↦ do audit "user_revoke" success (some callsign) none; pure true
  | false ↦ do
    audit "user_revoke" failure (some callsign) (some "DELETE_RETURNED_FALSE")
    pure false
]

module _ (w : World) where
  unfoldable pub request_people_list : Request → Bool → Action (List CallSignPerson)
  request_people_list request revoked = do
    admin w request
    persons ← list revoked false
    list_items (λ p. p.deleted) persons

  unfoldable pub request_people_list_onlydeleted : Request → Action (List CallSignPerson)
  request_people_list_onlydeleted request = do
    admin w request
    persons ← list false true
    pure (revoked_items persons)

  unfoldable pub request_people_list_byrole : Request → String → Action (List CallSignPerson)
  request_people_list_byrole request role = do
    admin w request
    persons ← by_role role
    list_items (λ p. none) persons

  -- The second `try` block.
  unfoldable pub revoke_person : String → Person → Action Bool
  revoke_person callsign person =
      except_for is_backend_error (do done ← delete w person; report_deleted callsign done)
        (do audit "user_revoke" failure (some callsign) (some "BACKEND_ERROR"); pure false)

  unfoldable pub delete_found : String → Action Bool
  delete_found callsign = do
    person ←
        found_or_404 "user_revoke" (some callsign) "USER_NOT_FOUND" (by_callsign w callsign false)
    revoke_person callsign person

  unfoldable pub delete_person : Request → String → Action Bool
  delete_person request callsign = do admin w request; delete_found callsign
