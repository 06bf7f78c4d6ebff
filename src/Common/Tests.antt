-- ===== src/Common/Tests.antt =====
-- Boolean tests on the native numbers, the conditional, and `===` by instances.
use Prim.Native.Nat.{ℕ, ◌≤◌, ◌<◌, compare, Ordering}
use Prim.Native.String.{String}
use mathlib.Core.Path.{◌≡◌, refl}
use mathlib.Core.Logic.{◌↔◌, ◌≢◌, ◌⊎◌, inl, inr}
use mathlib.Core.Bool.{Bool, true, false, ◌&&◌}
use mathlib.Core.Option.{Option, none, some}
use native.Mathlib.Omega.{arith}
use text.Mathlib.Text.{◌==◌ as str_eq}
use text.Mathlib.TextEquality.{eq_iff}

abbrev pub ltb : ℕ → ℕ → Bool
ltb a b = elim (compare a b) [ Ordering.lt ↦ true | _ ↦ false ]

abbrev pub leb : ℕ → ℕ → Bool
leb a b = elim (compare a b) [ Ordering.gt ↦ false | _ ↦ true ]

abbrev pub nat_eq : ℕ → ℕ → Bool
nat_eq a b = elim (compare a b) [ Ordering.eq ↦ true | _ ↦ false ]

infix 1 if◌then◌else◌
abbrev pub if◌then◌else◌ {ℓ} : {A : Type ℓ} → Bool → A → A → A
if true then x else y = x
if false then x else y = y

pub nat_eq_iff : (a b : ℕ) → (nat_eq a b ≡ true) ↔ (a ≡ b)
nat_eq_iff a b = ground arith

pub ltb_iff : (a b : ℕ) → (ltb a b ≡ true) ↔ (a < b)
ltb_iff a b = ground arith

pub leb_iff : (a b : ℕ) → (leb a b ≡ true) ↔ (a ≤ b)
leb_iff a b = ground arith

pub Bool-cases : (b : Bool) → (b ≡ true) ⊎ (b ≡ false)
Bool-cases true = inl refl
Bool-cases false = inr refl

pub Option-cases {ℓ} : {A : Type ℓ} (o : Option A) → (o ≡ none) ⊎ ((a : A) × (o ≡ some a))
Option-cases none = inl refl
Option-cases (some a) = inr (a, refl)

pub and_true : (a b : Bool) → (a && b) ≡ true → (a ≡ true) × (b ≡ true)
and_true a b h = ground arith

-- `a === b` on the values of a type.
pub record Eq {ℓ} (A : Type ℓ) : Type ℓ where
  pub beq : (a b : A) → Bool
  pub beq_iff : (a b : A) → (beq a b ≡ true) ↔ (a ≡ b)

module _ {ℓ} {A : Type ℓ} where
  -- `a === b` where either side may be absent.
  abbrev pub option_eq : (A → A → Bool) → Option A → Option A → Bool
  option_eq eq none none = true
  option_eq eq none (some b) = false
  option_eq eq (some a) none = false
  option_eq eq (some a) (some b) = eq a b

  pub option_eq_iff :
      (eq : A → A → Bool)
      → ((a b : A) → (eq a b ≡ true) ↔ (a ≡ b))
      → (x y : Option A) → (option_eq eq x y ≡ true) ↔ (x ≡ y)
  option_eq_iff eq law none none = ground arith
  option_eq_iff eq law none (some b) = ground arith
  option_eq_iff eq law (some a) none = ground arith
  option_eq_iff eq law (some a) (some b) = ground (arith, law a b)

  abbrev pub is_some : Option A → Bool
  is_some none = false
  is_some (some _) = true

  -- `o ?? d`.
  abbrev pub or_else : Option A → A → A
  or_else none d = d
  or_else (some a) d = a

instance abbrev pub string_Eq : Eq String
string_Eq = record { beq_iff = eq_iff; beq = str_eq }

infix 50 ◌==◌
abbrev pub ◌==◌ {ℓ} : {A : Type ℓ} ⦃e : Eq A⦄ → A → A → Bool
◌==◌ ⦃e⦄ = e.beq

instance abbrev pub option_Eq {ℓ} : {A : Type ℓ} ⦃e : Eq A⦄ → Eq (Option A)
option_Eq ⦃e⦄ = record { beq = option_eq e.beq; beq_iff = option_eq_iff e.beq e.beq_iff }

instance abbrev pub nat_Eq : Eq ℕ
nat_Eq = record { beq = nat_eq; beq_iff = nat_eq_iff }

module _ {ℓ} {A : Type ℓ} ⦃e : Eq A⦄ where
  pub beq_refl : (a : A) → (a == a) ≡ true
  beq_refl a = (e.beq_iff a a).1 refl

  pub beq_of_ne : (a b : A) → a ≢ b → (a == b) ≡ false
  beq_of_ne a b h = elim (Bool-cases (a == b)) [
    | inl y ↦ absurd (h ((e.beq_iff a b).0 y))
    | inr n ↦ n
  ]

  pub ne_of_beq : (a b : A) → (a == b) ≡ false → a ≢ b
  ne_of_beq a b h p = cc (h, (e.beq_iff a b).1 p)
