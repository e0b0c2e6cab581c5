-- ===== src/Base/Tests.antt =====
-- Boolean tests on the native numbers, and the conditional.
use Prim.Native.Nat.{ℕ, compare, Ordering}
use mathlib.Core.Path.{◌≡◌, refl}
use mathlib.Core.Logic.{◌↔◌, ◌⊎◌, inl, inr}
use mathlib.Core.Bool.{Bool, true, false, ◌&&◌}
use mathlib.Core.Option.{Option, none, some}
use native.Mathlib.Omega.{arith}

abbrev pub ltb : ℕ → ℕ → Bool
ltb a b = elim (compare a b) [ Ordering.lt ↦ true | _ ↦ false ]

abbrev pub leb : ℕ → ℕ → Bool
leb a b = elim (compare a b) [ Ordering.gt ↦ false | _ ↦ true ]

infix 50 ◌==◌
abbrev pub ◌==◌ : ℕ → ℕ → Bool
a == b = elim (compare a b) [ Ordering.eq ↦ true | _ ↦ false ]

infix 1 if◌then◌else◌
abbrev pub if◌then◌else◌ {ℓ} : {A : Type ℓ} → Bool → A → A → A
if true then x else y = x
if false then x else y = y

pub ==_iff : (a b : ℕ) → ((a == b) ≡ true) ↔ (a ≡ b)
==_iff a b = ground arith

-- To split on a computed value and keep the equation.
pub Bool-cases : (b : Bool) → (b ≡ true) ⊎ (b ≡ false)
Bool-cases true = inl refl
Bool-cases false = inr refl

pub Option-cases {ℓ} : {A : Type ℓ} (o : Option A) → (o ≡ none) ⊎ ((a : A) × (o ≡ some a))
Option-cases none = inl refl
Option-cases (some a) = inr (a, refl)

-- A test whose outcome does not matter.
pub if_same {ℓ} : {A : Type ℓ} (b : Bool) (x : A) → (if b then x else x) ≡ x
if_same true x = refl
if_same false x = refl

pub and_true : (a b : Bool) → (a && b) ≡ true → b ≡ true
and_true a b h = ground arith

pub and_left : (a b : Bool) → (a && b) ≡ true → a ≡ true
and_left a b h = ground arith

-- A search that stops at its head, or goes on.
pub found_head {ℓ} :
    {A : Type ℓ} (b : Bool) (x y : A) (later : Option A)
    → b ≡ true
    → (if b then some x else later) ≡ some y
    → x ≡ y
found_head true x y later e h = cc
found_head false x y later e h = ground arith

pub found_tail {ℓ} :
    {A : Type ℓ} (b : Bool) (x : A) (later : Option A) {o : Option A}
    → b ≡ false
    → (if b then some x else later) ≡ o
    → later ≡ o
found_tail true x later e h = ground arith
found_tail false x later e h = h

pub none-ne-some {ℓ} : {A : Type ℓ} (x : A) → ◌≡◌ {A = Option A} none (some x) → ⊥
none-ne-some x h = cc

pub some-eq {ℓ} : {A : Type ℓ} (x y : A) → ◌≡◌ {A = Option A} (some x) (some y) → x ≡ y
some-eq x y h = cc
