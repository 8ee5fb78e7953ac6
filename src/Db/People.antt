-- ===== src/Db/People.antt =====
-- src/rasenmaeher_api/db/people.py: people, their certificates and roles; and `by_pk` and `delete` of
-- src/rasenmaeher_api/db/base.py for people.
pub mod Creation
pub mod Lookup
pub mod Pfx
pub mod Integration
pub mod Linked
pub mod Revocation
pub mod Roles
use python_rasenmaeher_api.Base.{
  ℕ, String, Bool, true, false, not, ◌&&◌, ◌||◌, Option, none, some, List, [], ◌∷◌, ◌++◌, map, eqb,
  ◌==◌, is_some, if◌then◌else◌, find_first, where_rows, update_rows, any,
}
use python_rasenmaeher_api.Exec.{
  Error, not_found, callsign_reserved, backend_error, integrity_error, value_error,
  file_exists_error, is_not_found, is_value_error, Result, ok, err, pure, raise, gets, modify,
  raise_if, on_error, except_for, ◌>>=◌, ◌>>◌,
}
use python_rasenmaeher_api.Json.{Dict, mem_text}
use python_rasenmaeher_api.Settings.{valid_product_cns}
use python_rasenmaeher_api.Db.{
  Person, Role, Files, Task, user_promoted, user_demoted, user_created, refresh_ocsp, create_pfx,
  Store, Action, World, call, outside, checked, create_task,
}
use python_rasenmaeher_api.Cert.{ReasonTypes, flag, verify_csr, validate_reason}

-- A text that is given and not empty, as `if csrpem:` asks.
abbrev pub text_or_none : Option String → Option String
text_or_none none = none
text_or_none (some s) = if s == "" then none else some s

abbrev pub lift : {A : Type 0} → Result A → Action A
lift r s = (r, s)

abbrev pub has_pk : ℕ → Person → Bool
has_pk pk p = eqb p.pk pk

abbrev pub is_deleted : Person → Option ℕ
is_deleted p = p.deleted

-- The unique columns of the table.
abbrev pub clashes : ℕ → String → Person → Bool
clashes pk callsign p = eqb p.pk pk || p.callsign == callsign

abbrev pub owned_by : ℕ → Files → Bool
owned_by pk f = eqb f.owner pk

abbrev pub no_files : ℕ → Files
no_files pk = record { owner = pk; csr = none; key = false; cert = none; pfx = false }

-- The `try`/`except ValueError` of `by_pk_or_callsign`, and `ORMBaseModel.by_pk`.
unfoldable pub by_pk : ℕ → Bool → Action Person
unfolding checked
by_pk pk allow_deleted = do
  found ← gets (λ s. find_first (has_pk pk) s.persons)
  checked is_deleted allow_deleted found

-- The directory of a person: `certspath`.
abbrev pub files_of : ℕ → Store → Option Files
files_of pk s = find_first (owned_by pk) s.files

abbrev pub write_files : ℕ → (Files → Files) → Action (Unit {0})
write_files pk g = modify (λ s. record s { files = update_rows (owned_by pk) g s.files })

-- `certspath.mkdir(parents=True)`
unfoldable pub make_directory : ℕ → Action (Unit {0})
make_directory pk = do
  there ← gets (files_of pk)
  raise_if (is_some there) file_exists_error
  modify (λ s. record s { files = s.files ++ no_files pk ∷ [] })

-- `shutil.rmtree(certspath)`
unfoldable pub remove_directory : ℕ → Action (Unit {0})
remove_directory pk =
    modify (λ s. record s { files = where_rows (λ f. not (owned_by pk f)) s.files })

-- `session.add(person)` and `session.commit()`: keys and callsigns are unique in the table.
unfoldable pub insert : Person → Action (Unit {0})
insert person = do
  taken ← gets (λ s. any (clashes person.pk person.callsign) s.persons)
  raise_if taken integrity_error
  modify (λ s. record s { persons = s.persons ++ person ∷ [] })

abbrev pub update : ℕ → (Person → Person) → Action (Unit {0})
update pk g = modify (λ s. record s { persons = update_rows (has_pk pk) g s.persons })

module _ (w : World) where
  -- The first row whose callsign is the given one but for case.
  abbrev pub same_callsign : String → Person → Bool
  same_callsign callsign p = w.lower p.callsign == w.lower callsign

  unfoldable pub by_callsign : String → Bool → Action Person
  unfolding checked
  by_callsign callsign allow_deleted = do
    found ← gets (λ s. find_first (same_callsign callsign) s.persons)
    checked is_deleted allow_deleted found

  parse_pk : String → Action ℕ
  parse_pk inval = elim (w.parse_uuid inval) [ none ↦ raise value_error | some pk ↦ pure pk ]

  unfoldable pub by_pk_or_callsign : String → Bool → Action Person
  unfolding parse_pk by_pk by_callsign
  by_pk_or_callsign inval allow_deleted =
      except_for is_value_error (do pk ← parse_pk inval; by_pk pk allow_deleted)
        (by_callsign inval allow_deleted)

  -- True when there is such a person, also a deleted one.
  unfoldable pub is_callsign_available : String → Action Bool
  is_callsign_available callsign = do
    found ← gets (λ s. find_first (same_callsign callsign) s.persons)
    pure (is_some found)
