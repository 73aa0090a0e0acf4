-- ===== src/Base/Lists.antt =====
-- Lists measured by native numbers, Boolean searches, and a stable sort by a numeric key.
use Prim.Native.Nat.{ℕ, zero, suc, ◌+◌, ◌≤◌}
use mathlib.Core.Path.{◌≡◌, refl, subst}
use mathlib.Core.Bool.{Bool, true, false, ◌&&◌, ◌||◌}
use mathlib.Core.Option.{Option, none, some}
use mathlib.Core.List.{List, [], ◌∷◌, ◌++◌, reverse, reverse-cons}
use native.Mathlib.Omega.{arith}
use mathlib.Core.Logic.{inl, inr}
use flood_agent.Base.Tests.{ltb, ◌==◌, if◌then◌else◌, Bool-cases}

module _ {ℓ} {A : Type ℓ} where
  abbrev pub length : List A → ℕ
  length [] = 0
  length (x ∷ xs) = suc (length xs)

  abbrev pub any : (A → Bool) → List A → Bool
  any p [] = false
  any p (x ∷ xs) = p x || any p xs

  abbrev pub all : (A → Bool) → List A → Bool
  all p [] = true
  all p (x ∷ xs) = p x && all p xs

  abbrev pub find : (A → Bool) → List A → Option A
  find p [] = none
  find p (x ∷ xs) = if p x then some x else find p xs

  abbrev pub filter_by : (A → Bool) → List A → List A
  filter_by p [] = []
  filter_by p (x ∷ xs) = let rest = filter_by p xs in if p x then x ∷ rest else rest

  abbrev pub last? : List A → Option A
  last? [] = none
  last? (x ∷ []) = some x
  last? (x ∷ y ∷ ys) = last? (y ∷ ys)

  abbrev pub is_empty : List A → Bool
  is_empty [] = true
  is_empty (x ∷ xs) = false

  -- `All P xs`: every element satisfies `P`.
  abbrev pub All {κ} : (A → Type κ) → List A → Type κ
  All P [] = Unit
  All P (x ∷ xs) = P x × All P xs

  pub length-append : (xs ys : List A) → length (xs ++ ys) ≡ length xs + length ys
  length-append [] ys = omega arith
  length-append (x ∷ xs) ys = omega (arith, length-append xs ys)

module _ {ℓ} {A : Type ℓ} where
  pub last?-append : (xs : List A) (x : A) → last? (xs ++ x ∷ []) ≡ some x
  last?-append [] x = refl
  last?-append (y ∷ []) x = refl
  last?-append (y ∷ z ∷ zs) x = last?-append (z ∷ zs) x

abbrev pub mem : ℕ → List ℕ → Bool
mem a [] = false
mem a (x ∷ xs) = a == x || mem a xs

-- The stable order of `ORDER BY key`: rows of equal key keep the order of their insertion.
module _ {ℓ} {A : Type ℓ} (key : A → ℕ) where
  abbrev pub insert_on : A → List A → List A
  insert_on x [] = x ∷ []
  insert_on x (y ∷ ys) = if ltb (key y) (key x) then y ∷ insert_on x ys else x ∷ y ∷ ys

  abbrev pub sort_on : List A → List A
  sort_on [] = []
  sort_on (x ∷ xs) = insert_on x (sort_on xs)

  -- No row has a smaller key than one before it.
  abbrev pub IsOrdered : List A → Type 0
  IsOrdered [] = Unit
  IsOrdered (x ∷ xs) = All (λ y. key x ≤ key y) xs × IsOrdered xs

  pub sort_on-IsOrdered : (xs : List A) → IsOrdered xs → sort_on xs ≡ xs
  sort_on-IsOrdered [] h = refl
  sort_on-IsOrdered (x ∷ []) h = refl
  sort_on-IsOrdered (x ∷ y ∷ ys) h = ground (arith, sort_on-IsOrdered (y ∷ ys) h.1)

  pub IsOrdered-append :
      (xs : List A) (x : A) → IsOrdered xs → All (λ y. key y ≤ key x) xs → IsOrdered (xs ++ x ∷ [])
  IsOrdered-append [] x h a = (tt, tt)
  IsOrdered-append (y ∷ ys) x h a = (later ys h.0, IsOrdered-append ys x h.1 a.1)
    where
      later : (zs : List A) → All (λ z. key y ≤ key z) zs → All (λ z. key y ≤ key z) (zs ++ x ∷ [])
      later [] _ = (a.0, tt)
      later (z ∷ zs) b = (b.0, later zs b.1)

-- Searches through an order, a filter and an append.
module _ {ℓ} {A : Type ℓ} where
  pub any-insert_on :
      (key : A → ℕ) (p : A → Bool) (x : A) (xs : List A)
      → any p (insert_on key x xs) ≡ (p x || any p xs)
  any-insert_on key p x [] = refl
  any-insert_on key p x (y ∷ ys) = ground (arith, any-insert_on key p x ys)

  pub any-sort_on : (key : A → ℕ) (p : A → Bool) (xs : List A) → any p (sort_on key xs) ≡ any p xs
  any-sort_on key p [] = refl
  any-sort_on key p (x ∷ xs) =
      ground (arith, any-insert_on key p x (sort_on key xs), any-sort_on key p xs)

  pub any-filter_by-append :
      (p q : A → Bool) (xs : List A) (y : A)
      → q y ≡ true
      → p y ≡ true
      → any p (filter_by q (xs ++ y ∷ [])) ≡ true
  any-filter_by-append p q [] y h k = ground arith
  any-filter_by-append p q (x ∷ xs) y h k = ground (arith, any-filter_by-append p q xs y h k)

  pub find-any : (p : A → Bool) (xs : List A) → any p xs ≡ true → (x : A) × (find p xs ≡ some x)
  find-any p [] h = absurd (ground arith)
  find-any p (x ∷ xs) h = elim (Bool-cases (p x)) [
    | inl e ↦ (x, rw e refl)
    | inr e ↦ let (y, f) = find-any p xs (ground arith) in (y, rw e f)
  ]

-- What holds of every element, through the operations on lists.
module _ {ℓ κ} {A : Type ℓ} (P : A → Type κ) where
  pub All-filter_by : (p : A → Bool) (l : List A) → All P l → All P (filter_by p l)
  All-filter_by p [] h = tt
  All-filter_by p (x ∷ l) h = elim (Bool-cases (p x)) [
    | inl e ↦ rw e (h.0, All-filter_by p l h.1)
    | inr e ↦ rw e (All-filter_by p l h.1)
  ]

  pub All-insert_on : (key : A → ℕ) (x : A) (l : List A) → P x → All P l → All P (insert_on key x l)
  All-insert_on key x [] h k = (h, tt)
  All-insert_on key x (y ∷ l) h k = elim (Bool-cases (ltb (key y) (key x))) [
    | inl e ↦ rw e (k.0, All-insert_on key x l h k.1)
    | inr e ↦ rw e (h, k)
  ]

  pub All-sort_on : (key : A → ℕ) (l : List A) → All P l → All P (sort_on key l)
  All-sort_on key [] h = tt
  All-sort_on key (x ∷ l) h = All-insert_on key x (sort_on key l) h.0 (All-sort_on key l h.1)

  pub All-append : (l : List A) (x : A) → All P l → P x → All P (l ++ x ∷ [])
  All-append [] x h k = (k, tt)
  All-append (y ∷ l) x h k = (h.0, All-append l x h.1 k)

  pub All-reverse : (l : List A) → All P l → All P (reverse l)
  All-reverse [] h = tt
  All-reverse (x ∷ l) h = rw (reverse-cons x l) (All-append (reverse l) x (All-reverse l h.1) h.0)

-- Searches that find the same element.
module _ {ℓ} {A : Type ℓ} (p : A → Bool) where
  pub find-filter_by :
      (q : A → Bool) (xs : List A) (x : A)
      → find p xs ≡ some x
      → q x ≡ true
      → find p (filter_by q xs) ≡ some x
  find-filter_by q [] x h k = h
  find-filter_by q (y ∷ ys) x h k = ground (arith, find-filter_by q ys x)

  pub find-append : (xs ys : List A) (x : A) → find p xs ≡ some x → find p (xs ++ ys) ≡ some x
  find-append [] ys x h = absurd (ground arith)
  find-append (y ∷ xs) ys x h = ground (arith, find-append xs ys x)

  -- A search that fails in the first part goes on in the second.
  pub find-append_of_none : (xs ys : List A) → any p xs ≡ false → find p (xs ++ ys) ≡ find p ys
  find-append_of_none [] ys h = refl
  find-append_of_none (y ∷ xs) ys h = ground (arith, find-append_of_none xs ys)

  pub any-find : (xs : List A) (x : A) → find p xs ≡ some x → any p xs ≡ true
  any-find [] x h = absurd (ground arith)
  any-find (y ∷ xs) x h = ground (arith, any-find xs x)

  pub find-holds : (xs : List A) (x : A) → find p xs ≡ some x → p x ≡ true
  find-holds [] x h = absurd (ground arith)
  find-holds (y ∷ xs) x h = ground (arith, find-holds xs x)

  -- What a search finds, another search meets.
  pub any-find_of :
      (q : A → Bool) (xs : List A) (x : A) → find p xs ≡ some x → q x ≡ true → any q xs ≡ true
  any-find_of q [] x h k = absurd (ground arith)
  any-find_of q (y ∷ xs) x h k = ground (arith, any-find_of q xs x)

module _ {ℓ} {A : Type ℓ} where
  abbrev pub get_elem? : List A → ℕ → Option A
  get_elem? [] i = none
  get_elem? (x ∷ xs) zero = some x
  get_elem? (x ∷ xs) (suc i) = get_elem? xs i

  pub All-get_elem? {κ} :
      (P : A → Type κ) (xs : List A) (i : ℕ) (x : A) → All P xs → get_elem? xs i ≡ some x → P x
  All-get_elem? P [] i x h e = absurd (ground arith)
  All-get_elem? P (y ∷ ys) zero x h e = subst P (ground arith) h.0
  All-get_elem? P (y ∷ ys) (suc i) x h e = All-get_elem? P ys i x h.1 e

  pub All-map {κ ι} :
      (P : A → Type κ) (Q : A → Type ι) (xs : List A) → ((x : A) → P x → Q x) → All P xs → All Q xs
  All-map P Q [] f h = tt
  All-map P Q (x ∷ xs) f h = (f x h.0, All-map P Q xs f h.1)

  pub any-or_right :
      (p q : A → Bool) (xs : List A) → any (λ x. p x || q x) xs ≡ false → any q xs ≡ false
  any-or_right p q [] h = refl
  any-or_right p q (x ∷ xs) h = ground (arith, any-or_right p q xs)
