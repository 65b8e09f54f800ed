-- ===== src/Prelude/Tests.antt =====
-- Boolean tests on the native numbers, the conditional, and an interface for Boolean equality.
use Prim.Native.Nat.{ℕ, compare, Ordering}
use mathlib.Core.Path.{◌≡◌, refl}
use mathlib.Core.Logic.{◌↔◌, ◌⊎◌, inl, inr}
use mathlib.Core.Bool.{Bool, true, false, ◌&&◌}
use mathlib.Core.Option.{Option, none, some}
use native.Mathlib.Omega.{arith}

abbrev pub ltb : ℕ → ℕ → Bool
ltb a b = elim (compare a b) [ Ordering.lt ↦ true | _ ↦ false ]

abbrev pub leb : ℕ → ℕ → Bool
leb a b = elim (compare a b) [ Ordering.gt ↦ false | _ ↦ true ]

abbrev pub eqb : ℕ → ℕ → Bool
eqb a b = elim (compare a b) [ Ordering.eq ↦ true | _ ↦ false ]

infix 1 if◌then◌else◌
abbrev pub if◌then◌else◌ {ℓ} : {A : Type ℓ} → Bool → A → A → A
if true then x else y = x
if false then x else y = y

pub eqb_iff : (a b : ℕ) → (eqb a b ≡ true) ↔ (a ≡ b)
eqb_iff a b = ground arith

pub Bool-cases : (b : Bool) → (b ≡ true) ⊎ (b ≡ false)
Bool-cases true = inl refl
Bool-cases false = inr refl

pub Option-cases {ℓ} : {A : Type ℓ} (o : Option A) → (o ≡ none) ⊎ ((a : A) × (o ≡ some a))
Option-cases none = inl refl
Option-cases (some a) = inr (a, refl)

pub some-inj {ℓ} : {A : Type ℓ} {a b : A} → some a ≡ some b → a ≡ b
some-inj h = cc

-- Keys are compared by a Boolean test that decides equality.
pub record HasEquality {ℓ} (A : Type ℓ) : Type ℓ where
  pub same : A → A → Bool
  pub same_iff : (a b : A) → (same a b ≡ true) ↔ (a ≡ b)

pub beq_refl {ℓ} : {A : Type ℓ} ⦃e : HasEquality A⦄ (a : A) → e.same a a ≡ true
beq_refl ⦃e⦄ a = (e.same_iff a a).1 refl

infix 50 ◌==◌
abbrev pub ◌==◌ {ℓ} : {A : Type ℓ} ⦃e : HasEquality A⦄ → A → A → Bool
◌==◌ ⦃e⦄ = e.same

abbrev pub pair_beq {ℓ κ} :
    {A : Type ℓ} {B : Type κ} → HasEquality A → HasEquality B → A × B → A × B → Bool
pair_beq d e x y = d.same x.0 y.0 && e.same x.1 y.1

pub pair_beq_iff {ℓ κ} :
    {A : Type ℓ} {B : Type κ} (d : HasEquality A) (e : HasEquality B) (x y : A × B)
    → (pair_beq d e x y ≡ true) ↔ (x ≡ y)
pair_beq_iff d e (a, b) (a', b') = ground (arith, d.same_iff a a', e.same_iff b b')

instance abbrev pub pair_eq {ℓ κ} :
    {A : Type ℓ} {B : Type κ} ⦃d : HasEquality A⦄ ⦃e : HasEquality B⦄ → HasEquality (A × B)
pair_eq ⦃d⦄ ⦃e⦄ = record { same = pair_beq d e; same_iff = pair_beq_iff d e }
