-- ===== src/Exec/Keeps.antt =====
-- Invariants of actions: one rule for each way to build an action. With an equation as the
-- predicate, these are frame rules: what an action does not write.
use python_rasenmaeher_api.Base.{Bool, true, false, Option, none, some}
use python_rasenmaeher_api.Exec.{
  Error, Result, ok, err, Exec, pure, raise, gets, or_raise, on_error, except_for, ◌>>=◌, ◌>>◌,
  modify, raise_if,
}

-- The action keeps the predicate, whether it returns or raises.
pub record Keeps {S A : Type 0} (P : S → Type 0) (m : Exec S A) : Type 0 where
  pub at : (s : S) → P s → P (m s).1

module _ {S A : Type 0} {P : S → Type 0} where
  pub Keeps-pure : (a : A) → Keeps P (pure {S = S} a)
  Keeps-pure a = record { at = λ s h. h }

  pub Keeps-raise : (e : Error) → Keeps P (raise {S = S} {A = A} e)
  Keeps-raise e = record { at = λ s h. h }

  pub Keeps-gets : (f : S → A) → Keeps P (gets f)
  Keeps-gets f = record { at = λ s h. h }

  pub Keeps-or_raise : (e : Error) (o : Option A) → Keeps P (or_raise {S = S} e o)
  Keeps-or_raise e none = record { at = λ s h. h }
  Keeps-or_raise e (some a) = record { at = λ s h. h }

  handled :
      (m : Exec S A) (handle : Error → Exec S A)
      → ((e : Error) → Keeps P (handle e))
      → (d : Result A × S) → P d.1
      → P (elim d.0 as (λ _. Result A × S) [ ok a ↦ (ok a, d.1) | err e ↦ handle e d.1 ]).1
  handled m handle k (ok a, s) h = h
  handled m handle k (err e, s) h = (k e).at s h

  pub Keeps-on_error :
      (m : Exec S A) (handle : Error → Exec S A)
      → Keeps P m
      → ((e : Error) → Keeps P (handle e))
      → Keeps P (on_error m handle)
  Keeps-on_error m handle km kh = record { at = λ s h. handled m handle kh (m s) (km.at s h) }

  tested :
      (test : Error → Bool) (handler : Exec S A)
      → Keeps P handler
      → (d : Result A × S) → P d.1
      → P
          (elim d.0 as (λ _. Result A × S) [
            | ok a ↦ (ok a, d.1)
            | err e ↦ elim (test e) as (λ _. Result A × S) [
              | true ↦ handler d.1
              | false ↦ (err e, d.1)
            ]
          ]).1
  tested test handler k (ok a, s) h = h
  tested test handler k (err e, s) h = by_test (test e)
    where
      by_test :
          (b : Bool) → P (elim b as (λ _. Result A × S) [ true ↦ handler s | false ↦ (err e, s) ]).1
      by_test true = k.at s h
      by_test false = h

  pub Keeps-except_for :
      (test : Error → Bool) (m handler : Exec S A)
      → Keeps P m
      → Keeps P handler
      → Keeps P (except_for test m handler)
  Keeps-except_for test m handler km kh = record {
    at = λ s h. tested test handler kh (m s) (km.at s h);
  }

module _ {S A B : Type 0} {P : S → Type 0} where
  continued :
      (f : A → Exec S B)
      → ((a : A) → Keeps P (f a))
      → (d : Result A × S) → P d.1
      → P (elim d.0 as (λ _. Result B × S) [ ok a ↦ f a d.1 | err e ↦ (err e, d.1) ]).1
  continued f k (ok a, s) h = (k a).at s h
  continued f k (err e, s) h = h

  pub Keeps-bind :
      (m : Exec S A) (f : A → Exec S B) → Keeps P m → ((a : A) → Keeps P (f a)) → Keeps P (m >>= f)
  Keeps-bind m f km kf = record { at = λ s h. continued f kf (m s) (km.at s h) }

  pub Keeps-then : (m : Exec S A) (k : Exec S B) → Keeps P m → Keeps P k → Keeps P (m >> k)
  Keeps-then m k km kk = Keeps-bind m (λ _. k) km (λ _. kk)

module _ {S : Type 0} {P : S → Type 0} where
  pub Keeps-raise_if : (c : Bool) (e : Error) → Keeps P (raise_if {S = S} c e)
  Keeps-raise_if c e = record { at = λ s h. h }

  pub Keeps-modify : (g : S → S) → ((s : S) → P s → P (g s)) → Keeps P (modify g)
  Keeps-modify g k = record { at = k }

pub ruleset keeps_rules = (
  Keeps-pure, Keeps-raise, Keeps-gets, Keeps-or_raise, Keeps-on_error, Keeps-except_for, Keeps-bind,
  Keeps-then, Keeps-raise_if,
)
