-- ===== src/Json.antt =====
-- The JSON values of the columns `claims` and `extra`, and of JWT payloads: Python dictionaries
-- with text keys.
pub mod Laws
use python_rasenmaeher_api.Base.{
  ℕ, String, Bool, true, false, not, Option, none, some, List, [], ◌∷◌, eqb, ◌==◌, if◌then◌else◌,
}

mutual
  pub data Json : Type 0 where
    null : Json
    bool : Bool → Json
    num : ℕ → Json
    str : String → Json
    array : Items → Json
    object : Fields → Json

  pub data Items : Type 0 where
    nil : Items
    cons : Json → Items → Items

  pub data Fields : Type 0 where
    end : Fields
    field : String → Json → Fields → Fields

abbrev pub Dict : Type 0
Dict = List (String × Json)

-- The truth value of a Python object.
unfoldable pub truthy : Json → Bool
truthy null = false
truthy (bool b) = b
truthy (num n) = not (eqb n 0)
truthy (str s) = not (s == "")
truthy (array nil) = false
truthy (array (cons _ _)) = true
truthy (object end) = false
truthy (object (field _ _ _)) = true

-- `d.get(k)`
unfoldable pub lookup {ℓ} : {V : Type ℓ} → String → List (String × V) → Option V
lookup k [] = none
lookup k ((j, v) ∷ d) = if j == k then some v else lookup k d

-- `d[k] = v`: a key that is there keeps its place.
unfoldable pub insert {ℓ} : {V : Type ℓ} → String → V → List (String × V) → List (String × V)
insert k v [] = (k, v) ∷ []
insert k v ((j, w) ∷ d) = if j == k then (j, v) ∷ d else (j, w) ∷ insert k v d

-- `d.update(e)`
unfoldable pub update {ℓ} : {V : Type ℓ} → List (String × V) → List (String × V) → List (String × V)
unfolding insert
update d [] = d
update d ((k, v) ∷ e) = update (insert k v d) e

-- `d.get(k, False)`, read as a condition
unfoldable pub get_flag : String → Dict → Bool
unfolding lookup truthy
get_flag k d = elim (lookup k d) [ none ↦ false | some v ↦ truthy v ]

-- `{key: val for key, val in d.items() if key not in excluded}`
unfoldable pub mem_text : String → List String → Bool
mem_text k [] = false
mem_text k (j ∷ js) = if k == j then true else mem_text k js

unfoldable pub without_keys : List String → Dict → Dict
unfolding mem_text
without_keys excluded [] = []
without_keys excluded ((k, v) ∷ d) =
    if mem_text k excluded then without_keys excluded d else (k, v) ∷ without_keys excluded d
