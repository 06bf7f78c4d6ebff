-- ===== src/Common/Lists.antt =====
-- Lists measured by native numbers, membership tests, and predicates by recursion.
use Prim.Native.Nat.{ℕ, suc, ◌+◌}
use mathlib.Core.Path.{◌≡◌, refl}
use mathlib.Core.Bool.{Bool, true, false, ◌&&◌, ◌||◌}
use mathlib.Core.Option.{Option, none, some}
use mathlib.Core.List.{List, [], ◌∷◌, ◌++◌}
use native.Mathlib.Omega.{arith}
use apex_vnext.Common.Tests.{Eq, ◌==◌, if◌then◌else◌}

module _ {ℓ} {A : Type ℓ} where
  abbrev pub length : List A → ℕ
  length [] = 0
  length (x ∷ xs) = suc (length xs)

  pub length-append : (xs ys : List A) → length (xs ++ ys) ≡ length xs + length ys
  length-append [] ys = omega arith
  length-append (x ∷ xs) ys = omega (arith, length-append xs ys)

  -- `xs.at(-1)`.
  abbrev pub last? : List A → Option A
  last? [] = none
  last? (x ∷ []) = some x
  last? (x ∷ y ∷ xs) = last? (y ∷ xs)

  pub last?-append_one : (xs : List A) (x : A) → last? (xs ++ x ∷ []) ≡ some x
  last?-append_one [] x = refl
  last?-append_one (y ∷ []) x = refl
  last?-append_one (y ∷ z ∷ xs) x = last?-append_one (z ∷ xs) x

  -- `xs.every(p)`, `xs.some(p)`, `xs.filter(p)`, `xs.find(p)`.
  abbrev pub all : (A → Bool) → List A → Bool
  all p [] = true
  all p (x ∷ xs) = p x && all p xs

  abbrev pub any : (A → Bool) → List A → Bool
  any p [] = false
  any p (x ∷ xs) = p x || any p xs

  abbrev pub filter : (A → Bool) → List A → List A
  filter p [] = []
  filter p (x ∷ xs) = let rest = filter p xs in if p x then x ∷ rest else rest

  abbrev pub find : (A → Bool) → List A → Option A
  find p [] = none
  find p (x ∷ xs) = let rest = find p xs in if p x then some x else rest

module _ {ℓ κ} {A : Type ℓ} (P : A → Type κ) where
  abbrev pub All : List A → Type κ
  All [] = Unit
  All (x ∷ xs) = P x × All xs

  pub All-append : (xs ys : List A) → All xs → All ys → All (xs ++ ys)
  All-append [] ys h k = k
  All-append (x ∷ xs) ys (p, h) k = (p, All-append xs ys h k)

module _ {ℓ} {A : Type ℓ} ⦃e : Eq A⦄ where
  -- `xs.includes(a)`, `set.has(a)`.
  abbrev pub includes : A → List A → Bool
  includes a [] = false
  includes a (x ∷ xs) = x == a || includes a xs

  pub includes-append :
      (a : A) (xs ys : List A) → includes a (xs ++ ys) ≡ (includes a xs || includes a ys)
  includes-append a [] ys = refl
  includes-append a (x ∷ xs) ys = ground (arith, includes-append a xs ys)

  -- `new Set(xs).size === xs.length`.
  abbrev pub distinct : List A → Bool
  distinct [] = true
  distinct (x ∷ xs) = if includes x xs then false else distinct xs
