-- ===== src/Common/Results.antt =====
-- Code that may throw: the value, or the error that it throws.
use mathlib.Core.Path.{◌≡◌, refl}
use mathlib.Core.Bool.{Bool, true, false}
use mathlib.Core.Logic.{◌⊎◌, inl, inr}
use mathlib.Core.List.{List, [], ◌∷◌}

pub data Result {ℓ} (E A : Type ℓ) : Type ℓ where
  ok : A → Result E A
  err : E → Result E A

pub Result-cases {ℓ} :
    {E A : Type ℓ} (m : Result E A) → ((a : A) × (m ≡ ok a)) ⊎ ((e : E) × (m ≡ err e))
Result-cases (ok a) = inl (a, refl)
Result-cases (err e) = inr (e, refl)

infixl 5 ◌>>=◌ ◌>>◌
abbrev pub ◌>>=◌ {ℓ} : {E A B : Type ℓ} → Result E A → (A → Result E B) → Result E B
ok a >>= f = f a
err e >>= f = err e

-- `if (bad) throw e`.
abbrev pub refuse {ℓ} : {E : Type ℓ} → Bool → E → Result E (Unit {ℓ})
refuse true e = err e
refuse false e = ok tt

abbrev pub ◌>>◌ {ℓ} : {E B : Type ℓ} → Result E (Unit {ℓ}) → Result E B → Result E B
m >> k = m >>= λ _. k

pub refuse-eq-ok {ℓ} :
    {E : Type ℓ} (bad : Bool) (e : E) {u : Unit {ℓ}} → refuse bad e ≡ ok u → bad ≡ false
refuse-eq-ok true e h = cc
refuse-eq-ok false e h = refl

pub >>=-eq-ok {ℓ} :
    {E A B : Type ℓ} {out : B} (r : Result E A) (next : A → Result E B)
    → (r >>= next) ≡ ok out
    → (a : A) × (r ≡ ok a) × (next a ≡ ok out)
>>=-eq-ok (err x) next h = cc
>>=-eq-ok (ok value) next h = (value, refl, h)

-- `xs.map(f)` where `f` may throw.
abbrev pub map_ok {ℓ} : {E A B : Type ℓ} → (A → Result E B) → List A → Result E (List B)
map_ok f [] = ok []
map_ok f (x ∷ xs) = do ok ((← f x) ∷ (← map_ok f xs))

pub bind_assoc {ℓ} :
    {E A B C : Type ℓ} (m : Result E A) (f : A → Result E B) (g : B → Result E C)
    → ((m >>= f) >>= g) ≡ (m >>= λ a. f a >>= g)
bind_assoc (ok a) f g = refl
bind_assoc (err e) f g = refl

pub bind-ok {ℓ} : {E A : Type ℓ} (m : Result E A) → (m >>= λ a. ok a) ≡ m
bind-ok (ok a) = refl
bind-ok (err e) = refl
