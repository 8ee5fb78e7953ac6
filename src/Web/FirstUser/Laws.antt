-- ===== src/Web/FirstUser/Laws.antt =====
-- The login code of a new administrator.
use python_rasenmaeher_api.Base.{
  suc, String, ◌≡◌, sym, ap, ◌∙◌, ◌↔◌, inl, inr, true, false, Option, none, some, [], ◌∷◌, arith,
  Bool-cases,
}
use python_rasenmaeher_api.Exec.{>>=-eq-ok, ok, is_err, ◌>>=◌}
use python_rasenmaeher_api.Json.{Dict, str, get_flag}
use python_rasenmaeher_api.Db.{Enrollment, Person, Store, World, audit}
use python_rasenmaeher_api.Db.People.Roles.{assign_role}
use python_rasenmaeher_api.Db.LoginCodes.{use_code, create_for_claims}
use python_rasenmaeher_api.Db.LoginCodes.Laws.{use_code-create_for_claims}
use python_rasenmaeher_api.Web.{refuse}
use python_rasenmaeher_api.Web.FirstUser.{
  bootstrap, approve_admin, get_check_code, check_unused, make_admin, post_admin_add, add_admin,
}
use python_rasenmaeher_api.Db.Enrollments.{approve, create_for_callsign}
use python_rasenmaeher_api.Db.People.{by_callsign}

module _ (w : World) where
  -- `check-code` tells the truth: it answers yes exactly for a code that `use_code` exchanges.
  pub get_check_code-use_code :
      (code : String) (s : Store)
      → (is_err (use_code w code none s).0 ≡ false) ↔ ((get_check_code code s).0 ≡ ok true)
  unfolding get_check_code use_code check_unused refuse audit
  get_check_code-use_code code s = (λ h. ground arith, λ h. ground arith)

  -- The audit log is no part of what a code finds.
  same_codes :
      (code : String) (u t : Store)
      → t.logincodes ≡ u.logincodes
      → t.calls ≡ u.calls
      → (use_code w code none t).0 ≡ (use_code w code none u).0
  unfolding use_code
  same_codes code u t same calls = ground arith

  -- The claims of an administrator's session.
  abbrev pub admin_claims : String → Dict
  admin_claims callsign = ("sub", str callsign) ∷ []

  -- The code is exchanged for a token with the claim `sub`.
  abbrev pub IsLogin : String → String → Store → Type 0
  IsLogin callsign code t =
      (use_code w code none t).0 ≡ ok (w.issue (suc t.calls) (admin_claims callsign))

  make_admin-ok :
      (callsign : String) (p : Person) (s t : Store) (code : String)
      → make_admin w callsign p s ≡ (ok code, t)
      → (u : Store) × (create_for_claims w
            (admin_claims callsign)
            none
            (assign_role w p "admin" s).1
          ≡ (ok code, u))
        × (t.logincodes ≡ u.logincodes)
        × (t.calls ≡ u.calls)
  unfolding make_admin refuse audit
  make_admin-ok callsign p s t code h = (
    (create_for_claims w (admin_claims callsign) none (assign_role w p "admin" s).1).1,
    ground arith,
    ground arith,
    ground arith,
  )

  make_admin-IsLogin :
      (callsign : String) (p : Person) (s t : Store) (code : String)
      → make_admin w callsign p s ≡ (ok code, t)
      → IsLogin callsign code t
  make_admin-IsLogin callsign p s t code h =
      let (u, made, codes, calls) = make_admin-ok callsign p s t code h in
      same_codes code u t codes calls
      ∙ use_code-create_for_claims w (admin_claims callsign) none none (assign_role w p "admin" s).1
          u code made
      ∙ ap (λ n. ok (w.issue (suc n) (admin_claims callsign))) (sym calls)

  approve_admin-IsLogin :
      (callsign : String) (e : Enrollment) (s t : Store) (code : String)
      → approve_admin w callsign e s ≡ (ok code, t)
      → IsLogin callsign code t
  unfolding approve_admin
  approve_admin-IsLogin callsign e s t code h =
      let (approver, u, _, h1) =
        >>=-eq-ok (λ a. approve w e a >>= make_admin w callsign) t code
          (by_callsign w "anon_admin" false) s h in
      let (p, v, _, h2) = >>=-eq-ok (make_admin w callsign) t code (approve w e approver) u h1 in
      make_admin-IsLogin callsign p v t code h2

  add_admin-IsLogin :
      (callsign : String) (csr : Option String) (s t : Store) (code : String)
      → add_admin w callsign csr s ≡ (ok code, t)
      → IsLogin callsign code t
  unfolding add_admin
  add_admin-IsLogin callsign csr s t code h =
      let (_, u, _, h1) =
        >>=-eq-ok
          (λ _. create_for_callsign w callsign none (some []) csr >>= approve_admin w callsign) t
          code (bootstrap w) s h in
      let (e, v, _, h2) =
        >>=-eq-ok (approve_admin w callsign) t code
          (create_for_callsign w callsign none (some []) csr) u h1 in
      approve_admin-IsLogin callsign e v t code h2

  -- When the request to add the first administrator succeeds, the caller's token had the claim
  -- `anon_admin_session`, and the code that comes back is exchanged for a token whose subject is
  -- the callsign.
  pub post_admin_add-use_code :
      (jwt : Dict) (callsign : String) (csr : Option String) (s t : Store) (code : String)
      → post_admin_add w jwt callsign csr s ≡ (ok code, t)
      → (get_flag "anon_admin_session" jwt ≡ true) × IsLogin callsign code t
  unfolding post_admin_add refuse
  post_admin_add-use_code jwt callsign csr s t code h =
      elim (Bool-cases (get_flag "anon_admin_session" jwt)) [
        | inl flag ↦ (flag, add_admin-IsLogin callsign csr s t code (ground arith))
        | inr other ↦ absurd (ground arith)
      ]
