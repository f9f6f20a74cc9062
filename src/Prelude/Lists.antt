-- ===== src/Prelude/Lists.antt =====
-- Lists measured by native numbers, predicates over lists, and membership by recursion.
use Prim.Native.Nat.{ℕ, suc, ◌+◌}
use mathlib.Core.Path.{◌≡◌}
use mathlib.Core.Logic.{◌⊎◌, ◌↔◌, inl, inr}
use mathlib.Core.List.{List, [], ◌∷◌, ◌++◌}
use native.Mathlib.Omega.{arith}

module _ {ℓ} {A : Type ℓ} where
  abbrev pub length : List A → ℕ
  length [] = 0
  length (x ∷ xs) = suc (length xs)

  pub length-append : (xs ys : List A) → length (xs ++ ys) ≡ length xs + length ys
  length-append [] ys = omega arith
  length-append (x ∷ xs) ys = omega (arith, length-append xs ys)

  abbrev pub All {κ} : (A → Type κ) → List A → Type κ
  All P [] = Unit
  All P (x ∷ xs) = P x × All P xs

  pub All-append {κ} : (P : A → Type κ) (xs ys : List A) → All P xs → All P ys → All P (xs ++ ys)
  All-append P [] ys p q = q
  All-append P (x ∷ xs) ys p q = (p.0, All-append P xs ys p.1 q)

  pub All-map {κ κ'} :
      (P : A → Type κ) (Q : A → Type κ') (f : (a : A) → P a → Q a) (xs : List A)
      → All P xs
      → All Q xs
  All-map P Q f [] p = tt
  All-map P Q f (x ∷ xs) p = (f x p.0, All-map P Q f xs p.1)

  -- What holds of every value holds along a list.
  pub All-of {κ} : (P : A → Type κ) (f : (a : A) → P a) (xs : List A) → All P xs
  All-of P f [] = tt
  All-of P f (x ∷ xs) = (f x, All-of P f xs)

-- `In a xs`: the value stands somewhere in the list.
abbrev pub In : {A : Type 0} → A → List A → Type 0
In a [] = ⊥
In a (x ∷ xs) = (a ≡ x) ⊎ In a xs

module _ {E S R Q : Type 0} where
  -- Membership along one step of a filter, which takes an element or leaves it.
  pub kept : {T : Type 0} → T ↔ (E ⊎ S) → S ↔ (R × Q) → (E → Q) → T ↔ ((E ⊎ R) × Q)
  kept {T} put rest own = (λ t. forth (put.0 t), back)
    where
      forth : E ⊎ S → (E ⊎ R) × Q
      forth (inl e) = (inl e, own e)
      forth (inr s) = (inr (rest.0 s).0, (rest.0 s).1)

      back : (E ⊎ R) × Q → T
      back (inl e, q) = put.1 (inl e)
      back (inr r, q) = put.1 (inr (rest.1 (r, q)))

  pub skipped : S ↔ (R × Q) → (E → ¬ Q) → S ↔ ((E ⊎ R) × Q)
  skipped rest out = (λ s. (inr (rest.0 s).0, (rest.0 s).1), back)
    where
      back : (E ⊎ R) × Q → S
      back (inl e, q) = absurd (out e q)
      back (inr r, q) = rest.1 (r, q)

pub All-In : {A : Type 0} (P : A → Type 0) (x : A) (xs : List A) → All P xs → In x xs → P x
All-In P x [] a i = absurd i
All-In P x (y ∷ xs) a (inl e) = rw e a.0
All-In P x (y ∷ xs) a (inr i) = All-In P x xs a.1 i

pub In-behind : {A : Type 0} (x : A) (more xs : List A) → In x xs → In x (more ++ xs)
In-behind x [] xs i = i
In-behind x (y ∷ more) xs i = inr (In-behind x more xs i)
