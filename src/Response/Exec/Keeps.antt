-- ===== src/Response/Exec/Keeps.antt =====
-- Two-state rules: what relates the store before a call to the store after it, whether the call
-- returns or raises.
use mathlib.Core.Path.{subst, sym}
use flood_agent.Base.{◌≡◌, refl, Bool, true, false}
use flood_agent.Response.Store.{Store}
use flood_agent.Response.Exec.{
  Error, Result, ok, err, M, pure, raise, gets, lift, choose, continue, ◌>>=◌,
}

-- `m` takes every store that satisfies `P` to one that satisfies `P`.
pub record Keeps {A : Type 0} (P : Store → Type 0) (m : M A) : Type 0 where
  pub at : (s : Store) → P s → P (m s).1

module _ {A B : Type 0} {P : Store → Type 0} where
  -- What follows an action, whose result and store are given.
  continued :
      (rest : A → M B)
      → ((x : A) → Keeps P (rest x))
      → (result : Result A) (after : Store) → P after
      → P (continue result rest after).1
  continued rest each (ok x) after h = (each x).at after h
  continued rest each (err e) after h = h

  pub Keeps-bind :
      (first : M A) (rest : A → M B)
      → Keeps P first
      → ((x : A) → Keeps P (rest x))
      → Keeps P (first >>= rest)
  unfolding ◌>>=◌
  Keeps-bind first rest kept each = record {
    at = λ before h.
        let (result, after) = first before in continued rest each result after (kept.at before h);
  }

module _ {A : Type 0} {P : Store → Type 0} where
  -- An action that leaves the store as it is.
  reading : (m : M A) → ((s : Store) → (m s).1 ≡ s) → Keeps P m
  reading m still = record { at = λ s h. subst P (sym (still s)) h }

  pub Keeps-choose : (b : Bool) (m n : M A) → Keeps P m → Keeps P n → Keeps P (choose b m n)
  unfolding choose
  Keeps-choose true m n km kn = record { at = km.at }
  Keeps-choose false m n km kn = record { at = kn.at }

  pub Keeps-gets : (f : Store → A) → Keeps P (gets f)
  unfolding gets
  Keeps-gets f = reading (gets f) λ s. refl

  pub Keeps-lift : (r : Result A) → Keeps P (lift r)
  unfolding lift
  Keeps-lift r = reading (lift r) λ s. refl

  pub Keeps-raise : (e : Error) → Keeps P (raise {A = A} e)
  unfolding raise
  Keeps-raise e = reading (raise e) λ s. refl

  pub Keeps-pure : (a : A) → Keeps P (pure a)
  unfolding pure
  Keeps-pure a = reading (pure a) λ s. refl

pub ruleset keeps_rules =
    (Keeps-bind, Keeps-choose, Keeps-gets, Keeps-lift, Keeps-raise, Keeps-pure)
