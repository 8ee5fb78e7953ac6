-- ===== src/Db/People/Lookup.antt =====
-- `Person.list`, `Person.by_role` and `Person.by_mtlsjwt_payload` of src/rasenmaeher_api/db/people.py.
-- The user id of the payload stands for the payload.
use python_rasenmaeher_api.Base.{
  String, Bool, true, false, not, ◌&&◌, ◌||◌, Option, none, some, List, [], ◌∷◌, ◌++◌, ◌==◌,
  if◌then◌else◌, is_some, where_rows,
}
use python_rasenmaeher_api.Exec.{not_found, raise, gets}
use python_rasenmaeher_api.Db.{Person, Role, Action, World}
use python_rasenmaeher_api.Db.People.{has_pk, by_callsign}

abbrev pub is_listed : Bool → Bool → Person → Bool
is_listed include_deleted only_deleted p =
    (not only_deleted || is_some p.deleted)
    && (include_deleted || only_deleted || not (is_some p.deleted))

unfoldable pub list : Bool → Bool → Action (List Person)
list include_deleted only_deleted =
    gets (λ s. where_rows (is_listed include_deleted only_deleted) s.persons)

-- `select(Person, Role).join(Role).where(Role.role == role)`
unfoldable pub join_role : String → List Role → List Person → List Person
join_role role [] persons = []
join_role role (r ∷ rs) persons =
    let rest = join_role role rs persons in
    if r.role == role then where_rows (has_pk r.user) persons ++ rest else rest

unfoldable pub by_role : String → Action (List Person)
unfolding join_role
by_role role = gets (λ s. join_role role s.roles s.persons)

unfoldable pub by_mtlsjwt_payload : World → Option String → Bool → Action Person
unfolding by_callsign
by_mtlsjwt_payload w none allow_deleted = raise not_found
by_mtlsjwt_payload w (some userid) allow_deleted = elim (userid == "") [
  | true ↦ raise not_found
  | false ↦ by_callsign w userid allow_deleted
]
