-- ===== src/Db/People/Integration/Laws.antt =====
-- Whether what Keycloak answered is there for the next call of Keycloak.
use python_rasenmaeher_api.Base.{
  ◌⊎◌, inl, inr, Bool-cases, Option, update_rows, find_first-update_other, ◌||◌, find_first-fits,
  false, find_first, true, ℕ, String, ◌≡◌, refl, ap, ◌∙◌, Bool, some, [], ◌∷◌, arith,
}
use python_rasenmaeher_api.Db.People.Integration.{
  merge_kcdata, person_of_kcdata, update_from_kcdata, commit_extra, cert_of, cert_or_none_found,
  productapidata, get_kcdata, own_kcdata, merged_extra, with_kc_keys,
}
use python_rasenmaeher_api.Keycloak.Users.{to_fields, of_fields}
use python_rasenmaeher_api.Db.{Store, Person, World}
use python_rasenmaeher_api.Json.{str, object, insert, lookup, Json, Dict}
use python_rasenmaeher_api.Json.Laws.{lookup-insert_self, lookup-insert}
use python_rasenmaeher_api.Keycloak.{KcUserData}
use python_rasenmaeher_api.Db.People.Roles.{roles_of, roles_set}
use python_rasenmaeher_api.Exec.{>>=-ok, ok}
use python_rasenmaeher_api.Text.{escape_newlines}
use python_rasenmaeher_api.Db.People.{has_pk, files_of}

of_fields-to_fields : (d : Dict) → of_fields (to_fields d) ≡ d
unfolding of_fields to_fields
of_fields-to_fields [] = refl
of_fields-to_fields ((k, v) ∷ d) = ap (λ e. (k, v) ∷ e) (of_fields-to_fields d)

module _ (w : World) (uuid_text : ℕ → String) (tracked : Bool) where
  lookup-kc_uuid :
      (kcdata : Dict) (id : Json) (extra : Dict)
      → lookup "kc_uuid" (merged_extra w uuid_text tracked kcdata id extra) ≡ some id
  lookup-kc_uuid kcdata id extra =
      let d = insert "kc_uuid" id extra in
      let other =
        lookup-insert "kc_data" "kc_uuid"
          (object (to_fields (own_kcdata w uuid_text tracked kcdata))) d in
      other ∙ lookup-insert_self "kc_uuid" id extra

  lookup-kc_data :
      (kcdata : Dict) (id : Json) (extra : Dict)
      → lookup "kc_data" (merged_extra w uuid_text tracked kcdata id extra)
        ≡ some (object (to_fields (own_kcdata w uuid_text tracked kcdata)))
  lookup-kc_data kcdata id extra = lookup-insert_self "kc_data" _ (insert "kc_uuid" id extra)

  -- The keys that are there are kept.
  with_kc_keys-merged :
      (kcdata : Dict) (id : Json) (extra : Dict)
      → with_kc_keys (some (merged_extra w uuid_text tracked kcdata id extra))
        ≡ merged_extra w uuid_text tracked kcdata id extra
  with_kc_keys-merged kcdata id extra =
      let u = lookup-kc_uuid kcdata id extra in
      let d = lookup-kc_data kcdata id extra in ground arith

  -- What the next call tells Keycloak.
  pub record Tells (p : Person) (t : Store) (id : String) (sent : Dict) : Type 0 where
    pub user : KcUserData
    pub returned : get_kcdata w uuid_text tracked p t ≡ (ok user, t)
    pub kc_id : user.kc_id ≡ some id
    pub kc_data : user.kc_data ≡ sent

  Tells-lookup :
      (p : Person) (t : Store) (id : String) (d : Dict)
      → lookup "kc_uuid" (with_kc_keys p.extra) ≡ some (str id)
      → lookup "kc_data" (with_kc_keys p.extra) ≡ some (object (to_fields d))
      → Tells p t id d
  unfolding get_kcdata productapidata roles_set
  Tells-lookup p t id d u v = record {
    user = record {
      productdata = record {
        uuid = uuid_text p.pk;
        callsign = p.callsign;
        x509cert = escape_newlines (cert_or_none_found (cert_of (files_of p.pk t)));
      };
      roles = roles_of p.pk t.roles;
      kc_id = some id;
      kc_data = of_fields (to_fields d);
    };
    returned = ground arith;
    kc_id = refl;
    kc_data = of_fields-to_fields d;
  }

  record Committed (pk : ℕ) (row : Person) (extra : Dict) (noticed : Bool) (s : Store)
      : Type 0 where
    person : Person
    after : Store
    returned : commit_extra w uuid_text tracked pk extra noticed s ≡ (ok person, after)
    written : noticed ≡ true → person.extra ≡ some extra
    unchanged : noticed ≡ false → (person ≡ row) × (after ≡ s)

  commit_extra-Committed :
      (pk : ℕ) (row : Person) (extra : Dict) (noticed : Bool) (s : Store)
      → find_first (has_pk pk) s.persons ≡ some row
      → Committed pk row extra noticed s
  unfolding commit_extra
  commit_extra-Committed pk row extra false s h = record {
    person = row;
    after = s;
    returned = ground arith;
    written = λ e. absurd (ground arith);
    unchanged = λ e. (refl, refl);
  }
  commit_extra-Committed pk row extra true s h =
      let change : Person → Person = λ p. record p { extra = some extra } in
      let fits = find_first-fits (has_pk pk) s.persons row h in
      let found =
        find_first-update_other (has_pk pk) (has_pk pk) change s.persons row (λ y. refl) h fits in
      record {
        person = change row;
        after = record s { persons = update_rows (has_pk pk) change s.persons };
        returned = ground arith;
        written = λ e. refl;
        unchanged = λ e. absurd (ground arith);
      }

  merge_kcdata-ok :
      (kcdata : Dict) (id : String) (given : Option Dict) (extra : Dict) (s : Store)
      → lookup "id" (own_kcdata w uuid_text tracked kcdata) ≡ some (str id)
      → given ≡ some extra
      → merge_kcdata w uuid_text tracked kcdata given s
        ≡ (ok (merged_extra w uuid_text tracked kcdata (str id) extra), s)
  unfolding merge_kcdata
  merge_kcdata-ok kcdata id given extra s hid h = ground arith

  -- Keycloak's answer about a person, whose row is in the database and who has an `extra` and an
  -- id in the answer, is committed without an error. If the ORM notices the change, or the `extra`
  -- was replaced before, the next call of Keycloak for the person that is returned has the id and
  -- the data of the answer, without the local properties. If not, the database is as it was and
  -- the person that is returned is its unchanged row.
  pub update_from_kcdata_recorded :
      (kcdata : Dict) (id : String) (person row : Person) (extra : Dict) (replaced : Bool)
      (s : Store)
      → lookup "id" (own_kcdata w uuid_text tracked kcdata) ≡ some (str id)
      → person.extra ≡ some extra
      → find_first (has_pk person.pk) s.persons ≡ some row
      → (p : Person) × (t : Store) × (update_from_kcdata w uuid_text tracked kcdata
            (some person)
            replaced
            s
          ≡ (ok p, t))
        × ((((tracked || replaced) ≡ true) × Tells p t id (own_kcdata w uuid_text tracked kcdata))
            ⊎ (((tracked || replaced) ≡ false) × (p ≡ row) × (t ≡ s)))
  unfolding update_from_kcdata person_of_kcdata merge_kcdata
  update_from_kcdata_recorded kcdata id person row extra replaced s hid hextra hrow =
      let merged = merged_extra w uuid_text tracked kcdata (str id) extra in
      let c = commit_extra-Committed person.pk row merged (tracked || replaced || false) s hrow in
      let done = c.returned in
      let same : (tracked || replaced || false) ≡ (tracked || replaced) = ground arith in
      let keys = with_kc_keys-merged kcdata (str id) extra in
      (
        c.person,
        c.after,
        >>=-ok (merge_kcdata w uuid_text tracked kcdata person.extra)
              (λ e. commit_extra w uuid_text tracked person.pk e (tracked || replaced || false)) s
              merged s (merge_kcdata-ok kcdata id person.extra extra s hid hextra)
            ∙ done,
        elim (Bool-cases (tracked || replaced)) [
          | inl e ↦
              let e' = c.written (same ∙ e) in
              inl (
                e,
                Tells-lookup c.person c.after id (own_kcdata w uuid_text tracked kcdata)
                    (ap (λ o. lookup "kc_uuid" (with_kc_keys o)) e'
                      ∙ ap (lookup "kc_uuid") keys
                      ∙ lookup-kc_uuid kcdata (str id) extra)
                    (ap (λ o. lookup "kc_data" (with_kc_keys o)) e'
                      ∙ ap (lookup "kc_data") keys
                      ∙ lookup-kc_data kcdata (str id) extra),
              )
          | inr e ↦ let (q, u) = c.unchanged (same ∙ e) in inr (e, q, u)
        ],
      )
