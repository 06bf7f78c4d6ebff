-- ===== src/Kernel/Canonical/Order.antt =====
-- The order of keys by their code units is total, and entries can be placed in any order.
use apex_vnext.Common.{◌≡◌, ◌≢◌, refl, true, false, List, [], ◌∷◌, arith, Bool-cases, ◌⊎◌, inl, inr}
use apex_vnext.Kernel.Canonical.{Text, text_lt, place}

text_lt_asym : (s t : Text) → text_lt s t ≡ true → text_lt t s ≡ false
unfolding text_lt
text_lt_asym [] [] h = cc
text_lt_asym [] (d ∷ t) h = refl
text_lt_asym (c ∷ s) [] h = cc
text_lt_asym (c ∷ s) (d ∷ t) h = ground (arith, text_lt_asym s t)

text_lt_total : (s t : Text) → text_lt s t ≡ false → text_lt t s ≡ false → s ≡ t
unfolding text_lt
text_lt_total [] [] h k = refl
text_lt_total [] (d ∷ t) h k = cc
text_lt_total (c ∷ s) [] h k = cc
text_lt_total (c ∷ s) (d ∷ t) h k = ground (arith, text_lt_total s t)

text_lt_trans : (s t u : Text) → text_lt s t ≡ true → text_lt t u ≡ true → text_lt s u ≡ true
unfolding text_lt
text_lt_trans [] [] u h k = cc
text_lt_trans [] (d ∷ t) [] h k = cc
text_lt_trans [] (d ∷ t) (e ∷ u) h k = refl
text_lt_trans (c ∷ s) [] u h k = cc
text_lt_trans (c ∷ s) (d ∷ t) [] h k = cc
text_lt_trans (c ∷ s) (d ∷ t) (e ∷ u) h k = ground (arith, text_lt_trans s t u)

-- Two different keys are ordered in exactly one way.
pub text_lt-cases :
    (s t : Text)
    → s ≢ t
    → ((text_lt s t ≡ true) × (text_lt t s ≡ false))
      ⊎ ((text_lt s t ≡ false) × (text_lt t s ≡ true))
text_lt-cases s t h = elim (Bool-cases (text_lt s t)) [
  | inl lt ↦ inl (lt, text_lt_asym s t lt)
  | inr ge ↦ elim (Bool-cases (text_lt t s)) [
    | inl gt ↦ inr (ge, gt)
    | inr le ↦ absurd (h (text_lt_total s t ge le))
  ]
]

pub place_comm :
    (k j v w : Text) (entries : List (Text × Text))
    → k ≢ j
    → place k v (place j w entries) ≡ place j w (place k v entries)
unfolding place
place_comm k j v w [] h = ground (arith, text_lt-cases k j h)
place_comm k j v w ((i, x) ∷ entries) h = ground (
  arith,
  text_lt-cases k j h,
  text_lt_trans k j i,
  text_lt_trans j k i,
  place_comm k j v w entries h,
)
