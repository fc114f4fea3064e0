-- ===== src/Prelude/Tests.antt =====
-- Branching, tests, and the list functions over the native numbers.
use Prim.Native.Nat.{ℕ, suc, compare, Ordering}
use Prim.Native.String.{String}
use mathlib.Core.Path.{◌≡◌, refl}
use mathlib.Core.Logic.{◌⊎◌, inl, inr}
use mathlib.Core.Bool.{Bool, true, false}
use mathlib.Core.Option.{Option, none, some}
use mathlib.Core.List.{List, [], ◌∷◌}
use text.Mathlib.Text.{◌==◌}

infix 1 if◌then◌else◌
abbrev pub if◌then◌else◌ {ℓ} : {A : Type ℓ} → Bool → A → A → A
if true then x else y = x
if false then x else y = y

-- Numbers are compared by `nat_eq` and `nat_lt`; `◌==◌` compares texts.
abbrev pub nat_eq : ℕ → ℕ → Bool
nat_eq a b = elim (compare a b) [ Ordering.eq ↦ true | _ ↦ false ]

abbrev pub nat_lt : ℕ → ℕ → Bool
nat_lt a b = elim (compare a b) [ Ordering.lt ↦ true | _ ↦ false ]

pub Bool-cases : (b : Bool) → (b ≡ true) ⊎ (b ≡ false)
Bool-cases true = inl refl
Bool-cases false = inr refl

pub Option-cases {ℓ} : {A : Type ℓ} (o : Option A) → (o ≡ none) ⊎ ((a : A) × (o ≡ some a))
Option-cases none = inl refl
Option-cases (some a) = inr (a, refl)

-- The pointer type `*bool`, dereferenced with a default.
abbrev pub deref {ℓ} : {A : Type ℓ} → Option A → A → A
deref none d = d
deref (some a) d = a

module _ {ℓ} {A : Type ℓ} where
  abbrev pub length : List A → ℕ
  length [] = 0
  length (x ∷ xs) = suc (length xs)

  abbrev pub is_empty : List A → Bool
  is_empty [] = true
  is_empty (x ∷ xs) = false

  abbrev pub is_some : Option A → Bool
  is_some none = false
  is_some (some a) = true

-- slices.Contains over texts.
unfoldable pub contains : List String → String → Bool
contains [] s = false
contains (x ∷ xs) s = if x == s then true else contains xs s

unfoldable pub contains_nat : List ℕ → ℕ → Bool
contains_nat [] s = false
contains_nat (x ∷ xs) s = if nat_eq x s then true else contains_nat xs s

-- One element of a list has a property.
abbrev pub Exists {ℓ} : {A : Type ℓ} → (A → Type 0) → List A → Type 0
Exists P [] = ⊥
Exists P (x ∷ xs) = P x ⊎ Exists P xs

-- Every element satisfies the predicate.
abbrev pub All {ℓ κ} : {A : Type ℓ} → (A → Type κ) → List A → Type κ
All P [] = Unit
All P (x ∷ xs) = P x × All P xs
