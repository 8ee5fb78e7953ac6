-- ===== src/Web/Auth/Laws.antt =====
-- What the dependencies of a route guarantee.
use python_rasenmaeher_api.Base.{
  ℕ, String, ◌≡◌, refl, ◌⊎◌, inl, inr, true, false, Option, none, some, List, [], ◌∷◌, arith, ◌==◌,
  eq_iff, Bool-cases, Option-cases, is_some, All, find_first,
}
use python_rasenmaeher_api.Exec.{Result-cases, Error, http, ok, err}
use python_rasenmaeher_api.Json.{mem_text}
use python_rasenmaeher_api.Settings.{valid_product_cns}
use python_rasenmaeher_api.Db.{Person, Role, Store, World}
use python_rasenmaeher_api.Db.People.{same_callsign, by_callsign}
use python_rasenmaeher_api.Db.People.Roles.{roles_of, roles_set, is_assigned}
use python_rasenmaeher_api.Db.People.Roles.Laws.{holds}
use python_rasenmaeher_api.Web.Auth.{
  admin, jwt_payload, jwt_sub, is_disallowed, mtls_payload, given, MtlsOrJwtPayloadType, Request,
  mtls_or_jwt, valid_user, is_subset, default_disallowed, mtls_type, jwt_type, MtlsOrJwtPayload,
  check_payload, no_user, is_product, person_of, load_user, check_roles, db_failure,
}

mem_text-roles_of :
    (role : String) (user : ℕ) (rows : List Role)
    → mem_text role (roles_of user rows) ≡ is_some (find_first (is_assigned user role) rows)
unfolding mem_text roles_of find_first
mem_text-roles_of role user [] = refl
mem_text-roles_of role user (r ∷ rs) =
    ground (arith, eq_iff role r.role, eq_iff r.role role, mem_text-roles_of role user rs)

-- Every role of the list is held.
abbrev pub Holds : List String → Person → Store → Type 0
Holds required p s = All (λ role. holds p.pk role s ≡ true) required

is_subset-Holds :
    (required : List String) (p : Person) (s : Store)
    → is_subset required (roles_of p.pk s.roles) ≡ true
    → Holds required p s
unfolding is_subset
is_subset-Holds [] p s h = tt
is_subset-Holds (r ∷ rs) p s h =
    (ground (arith, mem_text-roles_of r p.pk s.roles), is_subset-Holds rs p s (ground arith))

module _ (w : World) where
  -- The person is a live row of the table, found by the user id, and holds the roles.
  abbrev pub IsValidUser : List String → String → Person → Store → Type 0
  IsValidUser required userid p s = (by_callsign w userid false s ≡ (ok p, s)) × Holds required p s

  person_of-ok :
      (required : List String) (userid : String) (s t : Store) (o : Option Person)
      → person_of w true required userid s ≡ (ok o, t)
      → (t ≡ s) × (p : Person) × (o ≡ some p) × IsValidUser required userid p s
  unfolding person_of load_user check_roles db_failure no_user by_callsign roles_set
  person_of-ok required userid s t o h =
      elim (Option-cases (find_first (same_callsign w userid) s.persons)) [
        | inl missing ↦ absurd (ground arith)
        | inr (p, found) ↦ elim (Bool-cases (is_some p.deleted)) [
          | inl gone ↦ absurd (ground arith)
          | inr live ↦ elim (Bool-cases (is_subset required (roles_of p.pk s.roles))) [
            | inl has ↦
                (ground arith, p, ground arith, (ground arith, is_subset-Holds required p s has))
            | inr lacks ↦ absurd (ground arith)
          ]
        ]
      ]

  -- The request carries a product's certificate.
  abbrev pub IsProductRequest : MtlsOrJwtPayload → String → Type 0
  IsProductRequest payload userid =
      (payload.type ≡ mtls_type)
      × (cns : List String) × (valid_product_cns w.settings ≡ ok cns)
      × (mem_text userid cns ≡ true)

  is_product-cases :
      (type : MtlsOrJwtPayloadType) (userid : String) (s : Store)
      → ((type ≡ mtls_type)
          × (cns : List String) × (valid_product_cns w.settings ≡ ok cns)
          × (mem_text userid cns ≡ true)
          × (is_product w type userid s ≡ (ok true, s)))
        ⊎ (is_product w type userid s ≡ (ok false, s))
        ⊎ ((e : Error) × (is_product w type userid s ≡ (err e, s)))
  unfolding is_product
  is_product-cases jwt_type userid s = inr (inl refl)
  is_product-cases mtls_type userid s = elim (Result-cases (valid_product_cns w.settings)) [
    | inl (cns, known) ↦ elim (Bool-cases (mem_text userid cns)) [
      | inl listed ↦ inl (refl, cns, known, listed, ground arith)
      | inr other ↦ inr (inl (ground arith))
    ]
    | inr (e, failed) ↦ inr (inr (e, ground arith))
  ]

  abbrev pub IsAccepted : List String → MtlsOrJwtPayload → Store → Option Person → Type 0
  IsAccepted required payload s o =
      (userid : String) × (payload.userid ≡ some userid)
      × ((userid == "") ≡ false)
      × (((o ≡ none) × IsProductRequest payload userid)
          ⊎ ((p : Person) × (o ≡ some p) × IsValidUser required userid p s))

  check_payload-ok :
      (required : List String) (payload : MtlsOrJwtPayload) (s t : Store) (o : Option Person)
      → check_payload w true required payload s ≡ (ok o, t)
      → (t ≡ s) × IsAccepted required payload s o
  unfolding check_payload no_user
  check_payload-ok required payload s t o h = elim (Option-cases payload.userid) [
    | inl missing ↦ absurd (ground arith)
    | inr (userid, userid_is) ↦ elim (Bool-cases (userid == "")) [
      | inl empty ↦ absurd (ground arith)
      | inr full ↦ elim (is_product-cases payload.type userid s) [
        | inl (type, cns, known, listed, product) ↦ (
          ground arith,
          (userid, userid_is, full, inl (ground arith, (type, cns, known, listed))),
        )
        | inr (inl other) ↦
            let (same, p, found, valid) = person_of-ok required userid s t o (ground arith) in
            (same, (userid, userid_is, full, inr (p, found, valid)))
        | inr (inr (e, failed)) ↦ absurd (ground arith)
      ]
    ]
  ]

  mtls_or_jwt-cases :
      (request : Request) (s : Store)
      → ((payload : MtlsOrJwtPayload) × (mtls_or_jwt default_disallowed true request s
            ≡ (ok (some payload), s)))
        ⊎ ((e : Error) × (mtls_or_jwt default_disallowed true request s ≡ (err e, s)))
  unfolding mtls_or_jwt
  mtls_or_jwt-cases request s = elim (Option-cases (given request.mtls)) [
    | inr (dn, some_mtls) ↦ inl (mtls_payload dn, ground arith)
    | inl no_mtls ↦ elim (Option-cases (given request.jwt)) [
      | inl no_jwt ↦ inr (http 403, ground arith)
      | inr (payload, some_jwt) ↦
          elim (Bool-cases (is_disallowed default_disallowed (jwt_sub payload))) [
            | inl refused ↦ inr (http 403, ground arith)
            | inr allowed ↦ inl (jwt_payload payload, ground arith)
          ]
    ]
  ]

  -- When `ValidUser` lets a request pass, nothing was changed, there is a user id that is not
  -- empty, and either it is that of a product's certificate, and no person comes back, or the
  -- person with that callsign, who is not deleted and holds every required role.
  pub valid_user_sound :
      (required : List String) (request : Request) (s t : Store) (o : Option Person)
      → valid_user w true required request s ≡ (ok o, t)
      → (t ≡ s)
        × (payload : MtlsOrJwtPayload) × (mtls_or_jwt default_disallowed true request s
            ≡ (ok (some payload), s))
        × IsAccepted required payload s o
  unfolding valid_user no_user
  valid_user_sound required request s t o h = elim (mtls_or_jwt-cases request s) [
    | inl (payload, q) ↦
        let (same, accepted) = check_payload-ok required payload s t o (ground arith) in
        (same, payload, q, accepted)
    | inr (e, q) ↦ absurd (ground arith)
  ]

  -- The dependencies of a route for administrators change nothing.
  pub admin-ok :
      (request : Request) (s t : Store) (who : Option String × Option Person)
      → admin w request s ≡ (ok who, t)
      → t ≡ s
  unfolding admin
  admin-ok request s t who h = elim (mtls_or_jwt-cases request s) [
    | inr (e, q) ↦ absurd (ground arith)
    | inl (payload, q) ↦ elim (Result-cases (valid_user w true ("admin" ∷ []) request s).0) [
      | inr (e, failed) ↦ absurd (ground arith)
      | inl (o, passed) ↦
          let (same, _, _, _) =
            valid_user_sound ("admin" ∷ []) request s (valid_user w true ("admin" ∷ []) request s).1
              o (ground arith) in
          ground arith
    ]
  ]

  -- The user id that a route for administrators gets is the one of the request's payload.
  pub admin-payload :
      (request : Request) (s : Store) (actor : Option String) (who : Option Person)
      → (admin w request s).0 ≡ ok (actor, who)
      → (payload : MtlsOrJwtPayload) × (mtls_or_jwt default_disallowed true request s
          ≡ (ok (some payload), s))
        × (actor ≡ payload.userid)
  unfolding admin
  admin-payload request s actor who h = elim (mtls_or_jwt-cases request s) [
    | inr (e, q) ↦ absurd (ground arith)
    | inl (payload, q) ↦ elim (Result-cases (valid_user w true ("admin" ∷ []) request s).0) [
      | inr (e, failed) ↦ absurd (ground arith)
      | inl (o, passed) ↦ (payload, q, ground arith)
    ]
  ]

  person_of-state :
      (required : List String) (userid : String) (s : Store)
      → (person_of w true required userid s).1 ≡ s
  unfolding person_of load_user check_roles db_failure no_user by_callsign roles_set
  person_of-state required userid s = ground arith

  check_payload-state :
      (required : List String) (payload : MtlsOrJwtPayload) (s : Store)
      → (check_payload w true required payload s).1 ≡ s
  unfolding check_payload no_user
  check_payload-state required payload s = elim (Option-cases payload.userid) [
    | inl missing ↦ ground arith
    | inr (userid, is_userid) ↦ elim (is_product-cases payload.type userid s) [
      | inl (_, _, _, _, product) ↦ ground arith
      | inr (inl other) ↦ ground (arith, person_of-state required userid s)
      | inr (inr (e, failed)) ↦ ground arith
    ]
  ]

  -- Nor do they when they refuse a request.
  pub admin-err :
      (request : Request) (s t : Store) (e : Error) → admin w request s ≡ (err e, t) → t ≡ s
  unfolding admin valid_user
  admin-err request s t e h = elim (mtls_or_jwt-cases request s) [
    | inr (x, q) ↦ ground arith
    | inl (payload, q) ↦ ground (arith, check_payload-state ("admin" ∷ []) payload s)
  ]
