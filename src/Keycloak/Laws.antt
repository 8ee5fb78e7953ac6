-- ===== src/Keycloak/Laws.antt =====
-- The role "admin" in Keycloak follows the role "admin" here.
use mathlib.Core.Path.{subst}
use python_rasenmaeher_api.Base.{
  ap, ◌∙◌, refl, find_first-fits, inr, found_of_any, inl, find_first, Option-cases, sym, eq_iff,
  not, arith, String, ◌≡◌, Bool, true, false, ◌&&◌, Option, none, some, List, ◌==◌, if◌then◌else◌,
  any,
}
use python_rasenmaeher_api.Exec.{Exec, >>=-ok, Result, ok}
use python_rasenmaeher_api.Keycloak.{
  on_server, adjust_roles, KcUserData, check_user_roles, adjust_role, KeycloakAdmin, KcClient,
  RoleRep, is_named, check_admin_role,
}
use python_rasenmaeher_api.Json.{mem_text}

-- What Keycloak promises of its realm roles: `has k user role` says who has which role. Reading
-- changes nothing, a search for "admin" finds that role, and an assignment or a removal changes
-- one user's one role.
pub record RealmRoles {K : Type 0} (kcadmin : KeycloakAdmin K) (has : K → String → String → Bool)
    : Type 0 where
  pub search :
      (k : K)
      → (reps : List RoleRep) × (k' : K) × (kcadmin.a_get_realm_roles "admin" k ≡ (ok reps, k'))
        × (any (is_named "admin") reps ≡ true)
        × ((user role : String) → has k' user role ≡ has k user role)
  pub of_user :
      (user : String) (k : K)
      → (reps : List RoleRep) × (k' : K) × (kcadmin.a_get_realm_roles_of_user (some user) k
          ≡ (ok reps, k'))
        × (any (is_named "admin") reps ≡ has k user "admin")
        × ((other role : String) → has k' other role ≡ has k other role)
  pub assign :
      (user : String) (rep : RoleRep) (k : K)
      → (k' : K) × (kcadmin.a_assign_realm_roles (some user) rep k ≡ (ok tt, k'))
        × ((other role : String)
            → has k' other role
              ≡ (if other == user && role == rep.name then true else has k other role))
  pub remove :
      (user : String) (rep : RoleRep) (k : K)
      → (k' : K) × (kcadmin.a_delete_realm_roles_of_user (some user) rep k ≡ (ok tt, k'))
        × ((other role : String)
            → has k' other role
              ≡ (if other == user && role == rep.name then false else has k other role))

on_server-ok :
    {K A : Type 0} (m : Exec K A) (s : KcClient K) (a : A) (k : K)
    → m s.server ≡ (ok a, k)
    → on_server m s ≡ (ok a, record s { server = k })
on_server-ok m s a k h = ap (λ d. (d.0, record s { server = d.1 })) h

module _ {K : Type 0} (kcadmin : KeycloakAdmin K) (has : K → String → String → Bool)
    (promised : RealmRoles kcadmin has) where
  -- The role that the client remembers, if any, is "admin".
  abbrev pub RemembersAdmin : Option RoleRep → Type 0
  RemembersAdmin none = Unit
  RemembersAdmin (some rep) = rep.name ≡ "admin"

  -- The abstract step: one user's role "admin" is set to what is wanted, and nothing else changes.
  abbrev pub set_admin : (String → String → Bool) → String → Bool → String → String → Bool
  set_admin roles user wanted other role =
      if other == user && role == "admin" then wanted else roles other role

  record Checked (s : KcClient K) : Type 0 where
    rep : RoleRep
    after : KcClient K
    returned : check_admin_role kcadmin s ≡ (ok rep, after)
    admin : rep.name ≡ "admin"
    remembered : RemembersAdmin after.admin_role
    same : (user role : String) → has after.server user role ≡ has s.server user role

  cached_role-Checked :
      (s : KcClient K) (o : Option RoleRep) → s.admin_role ≡ o → RemembersAdmin o → Checked s
  unfolding check_admin_role
  cached_role-Checked s (some rep) e h = record {
    rep = rep;
    after = s;
    returned = ground arith;
    admin = h;
    remembered = subst RemembersAdmin (sym e) h;
    same = λ user role. refl;
  }
  cached_role-Checked s none e h =
      let (reps, k, searched, found, kept) = promised.search s.server in
      elim (Option-cases (find_first (is_named "admin") reps)) [
        | inl missing ↦ absurd (ground (arith, found_of_any (is_named "admin") reps))
        | inr (rep, first) ↦
            let named = find_first-fits (is_named "admin") reps rep first in
            let admin = (eq_iff rep.name "admin").0 named in
            record {
              rep = rep;
              after = record s { server = k; admin_role = some rep };
              returned = ground arith;
              admin = admin;
              remembered = admin;
              same = kept;
            }
      ]

  abbrev pub differ : Bool → Bool → Bool
  differ true b = not b
  differ false b = b

  pub record Adjusted (s : KcClient K) (user : String) (wanted : Bool)
      (run : Result Bool × KcClient K) : Type 0 where
    pub changed : Bool
    pub after : KcClient K
    pub returned : run ≡ (ok changed, after)
    pub reported : changed ≡ differ (has s.server user "admin") wanted
    pub roles :
        (other role : String)
        → has after.server other role ≡ set_admin (has s.server) user wanted other role
    pub remembers : RemembersAdmin after.admin_role

  -- The four cases of a wanted and an actual role.
  adjust_role-Adjusted :
      (s : KcClient K) (user : String) (rep : RoleRep) (wanted actual : Bool)
      → rep.name ≡ "admin"
      → has s.server user "admin" ≡ actual
      → RemembersAdmin s.admin_role
      → Adjusted s user wanted (adjust_role kcadmin (some user) rep wanted actual s)
  adjust_role-Adjusted s user rep true true n a h = record {
    changed = false;
    after = s;
    returned = refl;
    reported = ground arith;
    roles = λ other role. ground (arith, eq_iff other user, eq_iff role "admin");
    remembers = h;
  }
  adjust_role-Adjusted s user rep false false n a h = record {
    changed = false;
    after = s;
    returned = refl;
    reported = ground arith;
    roles = λ other role. ground (arith, eq_iff other user, eq_iff role "admin");
    remembers = h;
  }
  adjust_role-Adjusted s user rep true false n a h =
      let (k, e, after) = promised.assign user rep s.server in
      record {
        changed = true;
        after = record s { server = k };
        returned = ground arith;
        reported = ground arith;
        roles = λ other role. ground (arith, after other role);
        remembers = h;
      }
  adjust_role-Adjusted s user rep false true n a h =
      let (k, e, after) = promised.remove user rep s.server in
      record {
        changed = true;
        after = record s { server = k };
        returned = ground arith;
        reported = ground arith;
        roles = λ other role. ground (arith, after other role);
        remembers = h;
      }

  -- The check reads the roles of the user from the server as the client left it.
  adjust_roles-Adjusted :
      (user : KcUserData) (id : String) (s : KcClient K) (c : Checked s)
      → user.kc_id ≡ some id
      → Adjusted s id (mem_text "admin" user.roles) (check_user_roles kcadmin user s)
  unfolding check_user_roles
  adjust_roles-Adjusted user id s c e =
      let (reps, k, listed, found, kept) = promised.of_user id c.after.server in
      let before : KcClient K = record c.after { server = k } in
      let actual : has k id "admin" ≡ any (is_named "admin") reps = kept id "admin" ∙ sym found in
      let adjusted =
        adjust_role-Adjusted before id c.rep (mem_text "admin" user.roles)
          (any (is_named "admin") reps) c.admin actual c.remembered in
      let checked = c.returned in
      let run = adjusted.returned in
      let listed_roles : adjust_roles kcadmin user c.rep c.after
          ≡ adjust_role kcadmin (some id) c.rep (mem_text "admin" user.roles)
              (any (is_named "admin") reps) before =
        rw e (
          >>=-ok (on_server (kcadmin.a_get_realm_roles_of_user (some id)))
            (λ kc_roles.
              adjust_role kcadmin (some id) c.rep (mem_text "admin" user.roles)
                (any (is_named "admin") kc_roles))
            c.after reps before
            (on_server-ok (kcadmin.a_get_realm_roles_of_user (some id)) c.after reps k listed)) in
      record {
        changed = adjusted.changed;
        after = adjusted.after;
        returned =
            >>=-ok (check_admin_role kcadmin) (adjust_roles kcadmin user) s c.rep c.after checked
            ∙ listed_roles
            ∙ run;
        reported =
            adjusted.reported
            ∙ ap (λ b. differ b (mem_text "admin" user.roles))
                ((kept id "admin") ∙ c.same id "admin");
        roles = λ other role.
            ground (arith, adjusted.roles other role, kept other role, c.same other role);
        remembers = adjusted.remembers;
      }

  -- Where Keycloak keeps its promises, the check of a user's roles returns; afterwards the user has
  -- the role "admin" in Keycloak exactly if it is one of the local roles, no other user and no
  -- other role is touched, and the result says whether anything was changed.
  pub check_user_roles-Adjusted :
      (user : KcUserData) (id : String) (s : KcClient K)
      → user.kc_id ≡ some id
      → RemembersAdmin s.admin_role
      → Adjusted s id (mem_text "admin" user.roles) (check_user_roles kcadmin user s)
  check_user_roles-Adjusted user id s e h =
      adjust_roles-Adjusted user id s (cached_role-Checked s s.admin_role refl h) e
