-- ===== src/Common/Lists.antt =====
-- Lists measured by native numbers, and the predicates on lists that the components share.
use Prim.Native.Nat.{ℕ, suc, ◌+◌}
use mathlib.Core.Path.{◌≡◌, refl, sym}
use mathlib.Core.Logic.{◌⊎◌, inl, inr}
use mathlib.Core.Bool.{Bool, true, false, ◌&&◌, ◌||◌}
use mathlib.Core.List.{List, [], ◌∷◌, ◌++◌}
use native.Mathlib.Omega.{arith}
use lite_api.Common.Tests.{Eq, ◌==◌, contains, Bool-cases}

module _ {ℓ} {A : Type ℓ} where
  abbrev pub length : List A → ℕ
  length [] = 0
  length (x ∷ xs) = suc (length xs)

  pub length-append : (xs ys : List A) → length (xs ++ ys) ≡ length xs + length ys
  length-append [] ys = omega arith
  length-append (x ∷ xs) ys = omega (arith, length-append xs ys)

  abbrev pub any : (A → Bool) → List A → Bool
  any p [] = false
  any p (x ∷ xs) = p x || any p xs

  abbrev pub all : (A → Bool) → List A → Bool
  all p [] = true
  all p (x ∷ xs) = p x && all p xs

-- Membership, with the place kept.
abbrev pub In : {A : Type 0} → A → List A → Type 0
In a [] = ⊥
In a (x ∷ xs) = (a ≡ x) ⊎ In a xs

abbrev pub All {ℓ κ} : {A : Type ℓ} → (A → Type κ) → List A → Type κ
All P [] = Unit
All P (x ∷ xs) = P x × All P xs

pub All-In {κ} : {A : Type 0} (P : A → Type κ) (xs : List A) → ((a : A) → In a xs → P a) → All P xs
All-In P [] h = tt
All-In P (x ∷ xs) h = (h x (inl refl), All-In P xs (λ a m. h a (inr m)))

pub contains-In : {A : Type 0} ⦃e : Eq A⦄ (xs : List A) (a : A) → contains xs a ≡ true → In a xs
unfolding contains
contains-In [] a h = absurd cc
contains-In ⦃e⦄ (x ∷ xs) a h = elim (Bool-cases (x == a)) [
  | inl f ↦ inl (sym ((e.beq_iff x a).0 f))
  | inr f ↦ inr (contains-In xs a (rw f at h))
]

pub append-In : {A : Type 0} (xs ys : List A) (a : A) → In a (xs ++ ys) → In a xs ⊎ In a ys
append-In [] ys a h = inr h
append-In (x ∷ xs) ys a (inl e) = inl (inl e)
append-In (x ∷ xs) ys a (inr h) = elim (append-In xs ys a h) [ inl p ↦ inl (inr p) | inr p ↦ inr p ]

pub In-append_left : {A : Type 0} (xs ys : List A) (a : A) → In a xs → In a (xs ++ ys)
In-append_left [] ys a h = elim h [ ]
In-append_left (x ∷ xs) ys a (inl e) = inl e
In-append_left (x ∷ xs) ys a (inr h) = inr (In-append_left xs ys a h)

pub In-append_right : {A : Type 0} (xs ys : List A) (a : A) → In a ys → In a (xs ++ ys)
In-append_right [] ys a h = h
In-append_right (x ∷ xs) ys a h = inr (In-append_right xs ys a h)
