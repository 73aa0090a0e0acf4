-- ===== src/Response/Exec/Leads.antt =====
-- Rules with a condition before a call and another one after it, whether the call returns or raises.
use flood_agent.Base.{◌≡◌, ◌≢◌, refl, arith, Bool, true, false}
use flood_agent.Response.Store.{Store}
use flood_agent.Response.Exec.{Error, Result, ok, err, M, choose, require, continue, ◌>>=◌}
use flood_agent.Response.Exec.Keeps.{Keeps}

-- `m` takes every store that satisfies `P` to one that satisfies `Q`.
pub record Leads {A : Type 0} (P : Store → Type 0) (m : M A) (Q : Store → Type 0) : Type 0 where
  pub at : (s : Store) → P s → Q (m s).1

module _ {A B : Type 0} {P Q : Store → Type 0} where
  -- The first action keeps `P`, which is enough if it raises.
  pub Leads-then :
      (m : M A) (f : A → M B)
      → ((s : Store) → P s → Q s)
      → Keeps P m
      → ((a : A) → Leads P (f a) Q)
      → Leads P (m >>= f) Q
  unfolding ◌>>=◌
  Leads-then m f weaker km kf = record { at = λ s h. let (r, s') = m s in go r s' (km.at s h) }
    where
      go : (r : Result A) (s' : Store) → P s' → Q (continue r f s').1
      go (ok a) s' h = (kf a).at s' h
      go (err e) s' h = weaker s' h

  -- The first action does the work, and what follows keeps `Q`.
  pub Leads-first :
      (m : M A) (f : A → M B) → Leads P m Q → ((a : A) → Keeps Q (f a)) → Leads P (m >>= f) Q
  unfolding ◌>>=◌
  Leads-first m f km kf = record { at = λ s h. let (r, s') = m s in go r s' (km.at s h) }
    where
      go : (r : Result A) (s' : Store) → Q s' → Q (continue r f s').1
      go (ok a) s' h = (kf a).at s' h
      go (err e) s' h = h

  -- A read whose value is known.
  pub Leads-known :
      (m : M A) (f : A → M B) (a : A)
      → ((s : Store) → P s → m s ≡ (ok a, s))
      → Leads P (f a) Q
      → Leads P (m >>= f) Q
  unfolding ◌>>=◌
  Leads-known m f a known kf = record { at = λ s h. rw (known s h) (kf.at s h) }

module _ {A : Type 0} {P Q : Store → Type 0} where
  pub Leads-require :
      (b : Bool) (e : Error) (k : M A)
      → ((s : Store) → P s → Q s)
      → (b ≡ true → Leads P k Q)
      → Leads P (require b e >>= λ _. k) Q
  unfolding ◌>>=◌
  Leads-require true e k weaker granted = record { at = (granted refl).at }
  Leads-require false e k weaker granted = record { at = weaker }

  pub Leads-choose : (b : Bool) (m n : M A) → Leads P m Q → Leads P n Q → Leads P (choose b m n) Q
  unfolding choose
  Leads-choose true m n km kn = record { at = km.at }
  Leads-choose false m n km kn = record { at = kn.at }

module _ {A B : Type 0} where
  continue_returned :
      (r : Result A) (f : A → M B) (s : Store) (b : B)
      → (continue r f s).0 ≡ ok b
      → (a : A) × (r ≡ ok a) × ((f a s).0 ≡ ok b) × ((continue r f s).1 ≡ (f a s).1)
  continue_returned (ok a) f s b h = (a, refl, h, refl)
  continue_returned (err e) f s b h = absurd (err_not_ok e b h)
    where
      err_not_ok : (e : Error) (b : B) → err e ≢ ok b
      err_not_ok e b h = ground arith

  -- Two actions in a row return only if both do.
  pub returned_both :
      (m : M A) (f : A → M B) (s : Store) (b : B)
      → ((m >>= f) s).0 ≡ ok b
      → (a : A) × ((m s).0 ≡ ok a) × ((f a (m s).1).0 ≡ ok b) × (((m >>= f) s).1 ≡ (f a (m s).1).1)
  unfolding ◌>>=◌
  returned_both m f s b h = continue_returned (m s).0 f (m s).1 b h
