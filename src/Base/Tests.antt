-- ===== src/Base/Tests.antt =====
-- Boolean tests on the native numbers, and the conditional.
use Prim.Native.Nat.{ℕ, compare, Ordering}
use mathlib.Core.Path.{◌≡◌, refl}
use mathlib.Core.Logic.{◌↔◌, ◌⊎◌, inl, inr}
use mathlib.Core.Bool.{Bool, true, false, ◌&&◌}
use mathlib.Core.Option.{Option, none, some}
use native.Mathlib.Omega.{arith}

-- These compute to `compare`, which `ground` and `grind` read with no lemma listed.
abbrev pub ltb : ℕ → ℕ → Bool
ltb a b = elim (compare a b) [ Ordering.lt ↦ true | _ ↦ false ]

abbrev pub leb : ℕ → ℕ → Bool
leb a b = elim (compare a b) [ Ordering.gt ↦ false | _ ↦ true ]

infix 50 ◌==◌
abbrev pub ◌==◌ : ℕ → ℕ → Bool
a == b = elim (compare a b) [ Ordering.eq ↦ true | _ ↦ false ]

infix 1 if◌then◌else◌
abbrev pub if◌then◌else◌ {ℓ} : {A : Type ℓ} → Bool → A → A → A
if true then x else y = x
if false then x else y = y

pub ==_iff : (a b : ℕ) → ((a == b) ≡ true) ↔ (a ≡ b)
==_iff a b = ground arith

-- To split on a computed value and keep the equation.
pub Bool-cases : (b : Bool) → (b ≡ true) ⊎ (b ≡ false)
Bool-cases true = inl refl
Bool-cases false = inr refl

pub Option-cases {ℓ} : {A : Type ℓ} (o : Option A) → (o ≡ none) ⊎ ((a : A) × (o ≡ some a))
Option-cases none = inl refl
Option-cases (some a) = inr (a, refl)

-- A value that only one branch returns.
pub if_some {ℓ} : {A : Type ℓ} (b : Bool) {a x : A} → (if b then some a else none) ≡ some x → a ≡ x
if_some true h = cc
if_some false h = cc

pub if_and_some {ℓ} :
    {A : Type ℓ} (a b : Bool) {x y : A}
    → (if a && b then some x else none) ≡ some y
    → (a ≡ true) × (b ≡ true) × (x ≡ y)
if_and_some true true h = (refl, refl, cc)
if_and_some true false h = cc
if_and_some false b h = cc

-- A property of a branch, where the test is a field: `rw` would rewrite the whole record.
module _ {ℓ κ} {A : Type ℓ} (P : A → Type κ) where
  pub on_true : {b : Bool} (x y : A) → b ≡ true → P x → P (if b then x else y)
  on_true {b = true} x y h p = p
  on_true {b = false} x y h p = cc

  pub on_false : {b : Bool} (x y : A) → b ≡ false → P y → P (if b then x else y)
  on_false {b = true} x y h p = cc
  on_false {b = false} x y h p = p
