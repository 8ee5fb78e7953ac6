-- ===== src/Exec.antt =====
-- Python methods that change the database and may raise: state passing with exceptions. What was
-- committed before a raise stays committed, so the state comes back beside an exception too.
-- The exceptions are those of src/rasenmaeher_api/db/errors.py and the built-in ones that the modelled
-- code can meet; their messages are left out.
pub mod Keeps
use mathlib.Core.Path.{subst}
use python_rasenmaeher_api.Base.{
  sym, refl, arith, ◌⊎◌, inl, inr, ◌≡◌, ℕ, Bool, true, false, Option, none, some, if◌then◌else◌,
}

-- `http n` is `HTTPException(status_code=n)`.
pub data Error : Type 0 where
  not_found deleted callsign_reserved pool_inactive forbidden_operation token_reuse : Error
  backend_error integrity_error runtime_error value_error key_error : Error
  unbound_local_error attribute_error file_exists_error db_error : Error
  cert_error keycloak_error os_error type_error : Error
  no_result error_result db_locked no_value : Error
  http : ℕ → Error

pub data Result {ℓ} (A : Type ℓ) : Type ℓ where
  ok : A → Result A
  err : Error → Result A

-- The call raised.
abbrev pub is_err {ℓ} : {A : Type ℓ} → Result A → Bool
is_err (ok a) = false
is_err (err e) = true

-- To split on a computed result and keep the equation.
pub Result-cases {ℓ} :
    {A : Type ℓ} (r : Result A) → ((a : A) × (r ≡ ok a)) ⊎ ((e : Error) × (r ≡ err e))
Result-cases (ok a) = inl (a, refl)
Result-cases (err e) = inr (e, refl)

-- `except NotFound`: `Deleted` is a subclass.
unfoldable pub is_not_found : Error → Bool
is_not_found not_found = true
is_not_found deleted = true
is_not_found _ = false

-- `except ValueError`: `NotFound` is a `DBFetchError`, which is a `ValueError`; so are
-- `CallsignReserved`, `TokenReuse` and three errors of the certificate backends.
unfoldable pub is_value_error : Error → Bool
is_value_error not_found = true
is_value_error deleted = true
is_value_error callsign_reserved = true
is_value_error token_reuse = true
is_value_error value_error = true
is_value_error no_result = true
is_value_error error_result = true
is_value_error no_value = true
is_value_error _ = false

-- `except CertError`
unfoldable pub is_cert_error : Error → Bool
is_cert_error cert_error = true
is_cert_error no_result = true
is_cert_error error_result = true
is_cert_error db_locked = true
is_cert_error no_value = true
is_cert_error _ = false

-- `except KeycloakError`
unfoldable pub is_keycloak_error : Error → Bool
is_keycloak_error keycloak_error = true
is_keycloak_error _ = false

-- `except HTTPException`
unfoldable pub is_http_exception : Error → Bool
is_http_exception not_found = true
is_http_exception deleted = true
is_http_exception callsign_reserved = true
is_http_exception token_reuse = true
is_http_exception (http _) = true
is_http_exception _ = false

-- The status code of the response when the exception leaves a request handler.
unfoldable pub status_code : Error → ℕ
status_code not_found = 404
status_code deleted = 404
status_code callsign_reserved = 403
status_code token_reuse = 403
status_code (http n) = n
status_code _ = 500

module _ (S : Type 0) where
  abbrev pub Exec : Type 0 → Type 0
  Exec A = S → Result A × S

module _ {S A : Type 0} where
  abbrev pub pure : A → Exec S A
  pure a s = (ok a, s)

  abbrev pub raise : Error → Exec S A
  raise e s = (err e, s)

  abbrev pub gets : (S → A) → Exec S A
  gets f s = (ok (f s), s)

  -- A value that may be missing, with the exception that is raised then.
  abbrev pub or_raise : Error → Option A → Exec S A
  or_raise e none = raise e
  or_raise e (some a) = pure a

  -- `try: m except …`; the handler looks at the exception and may raise it again.
  abbrev pub on_error : Exec S A → (Error → Exec S A) → Exec S A
  on_error m handle s = let (r, s') = m s in elim r [ ok a ↦ (ok a, s') | err e ↦ handle e s' ]

  -- `except E: handler`, for the exceptions that a test names.
  abbrev pub except_for : (Error → Bool) → Exec S A → Exec S A → Exec S A
  except_for test m handler s =
      let (r, s') = m s in
      elim r [
        | ok a ↦ (ok a, s')
        | err e ↦ elim (test e) [ true ↦ handler s' | false ↦ (err e, s') ]
      ]

infixl 5 ◌>>=◌ ◌>>◌
abbrev pub ◌>>=◌ : {S A B : Type 0} → Exec S A → (A → Exec S B) → Exec S B
◌>>=◌ m f s = let (r, s') = m s in elim r [ ok a ↦ f a s' | err e ↦ raise e s' ]

abbrev pub ◌>>◌ : {S A B : Type 0} → Exec S A → Exec S B → Exec S B
m >> k = m >>= λ _. k

module _ {S : Type 0} where
  abbrev pub modify : (S → S) → Exec S (Unit {0})
  modify f s = (ok tt, f s)

  abbrev pub raise_if : Bool → Error → Exec S (Unit {0})
  raise_if c e s = (if c then err e else ok tt, s)

-- Inversion of a call that returns.
module _ {S A B : Type 0} (f : A → Exec S B) (t : S) (b : B) where
  continue_eq :
      (d : Result A × S)
      → (elim d.0 [ ok a ↦ f a d.1 | err e ↦ (err e, d.1) ]) ≡ (ok b, t)
      → (a : A) × (u : S) × (d ≡ (ok a, u)) × (f a u ≡ (ok b, t))
  continue_eq (ok a, u) h = (a, u, refl, h)
  continue_eq (err e, u) h = absurd (ground arith)

  pub >>=-eq-ok :
      (m : Exec S A) (s : S)
      → (m >>= f) s ≡ (ok b, t)
      → (a : A) × (u : S) × (m s ≡ (ok a, u)) × (f a u ≡ (ok b, t))
  >>=-eq-ok m s h = continue_eq (m s) h

module _ {S A B : Type 0} (f : A → Exec S B) where
  -- A call that returns is followed by what is bound to it.
  continue_ok :
      (a : A) (u : S) (d : Result A × S)
      → d ≡ (ok a, u)
      → (elim d.0 as (λ _. Result B × S) [ ok a ↦ f a d.1 | err e ↦ (err e, d.1) ]) ≡ f a u
  continue_ok a u d h =
      subst
        (λ d. (elim d.0 as (λ _. Result B × S) [ ok a ↦ f a d.1 | err e ↦ (err e, d.1) ]) ≡ f a u)
        (sym h) refl

pub >>=-ok :
    {S A B : Type 0} (m : Exec S A) (f : A → Exec S B) (s : S) (a : A) (u : S)
    → m s ≡ (ok a, u)
    → (m >>= f) s ≡ f a u
>>=-ok m f s a u h = continue_ok f a u (m s) h
