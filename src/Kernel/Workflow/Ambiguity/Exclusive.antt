-- ===== src/Kernel/Workflow/Ambiguity/Exclusive.antt =====
-- A manifest whose edges pass the check never has two eligible edges out of one node.
use apex_vnext.Common.{
  ◌≤◌, String, ◌≡◌, refl, ap, Bool, true, false, List, [], ◌∷◌, Option, none, some, arith, inl, inr,
  includes, Bool-cases, Option-cases, find, filter, length, string_Eq, eq_iff, not, ◌∙◌,
}
use mathlib.Core.List.{Memᴰ}
use apex_vnext.Kernel.Canonical.{
  Text, Json, null, bool, num, str, text_Eq, text_eq_iff, sha256_json,
}
use apex_vnext.Kernel.Workflow.{
  Condition, equals, in_, exists_, not_, all_of, Edge, State, get_path, state_json, strict_eq,
  evaluate, evaluate_condition,
}
use apex_vnext.Kernel.Workflow.Route.{eligible}
use apex_vnext.Kernel.Workflow.Ambiguity.{digest, negated, equality_of, negates, partition_from}

-- At most one literal is identical with a value.
strict_eq_unique :
    (v : Option Json) (a b : Json) → strict_eq v a ≡ true → strict_eq v b ≡ true → a ≡ b
unfolding strict_eq
strict_eq_unique none a b h k = absurd (ground arith)
strict_eq_unique (some null) a b h k = ground arith
strict_eq_unique (some (bool x)) a b h k = ground arith
strict_eq_unique (some (num x)) (num y) (num z) h k =
    ground (arith, text_eq_iff x y, text_eq_iff x z)
strict_eq_unique (some (str x)) (str y) (str z) h k =
    ground (arith, text_eq_iff x y, text_eq_iff x z)
strict_eq_unique _ a b h k = ground arith

evaluate-equality :
    (c : Option Condition) (s : State) (path : Text) (literal : Json)
    → equality_of c ≡ some (path, literal)
    → evaluate_condition c s ≡ strict_eq (get_path (state_json s) path) literal
unfolding evaluate_condition evaluate
evaluate-equality (some (equals p l)) s path literal h =
    let first : p ≡ path = ground arith in
    let second : l ≡ literal = ground arith in cc (first, second)
evaluate-equality none s path literal h = absurd (ground arith)
evaluate-equality (some (all_of c)) s path literal h = absurd (ground arith)
evaluate-equality (some (in_ p l)) s path literal h = absurd (ground arith)
evaluate-equality (some (exists_ p)) s path literal h = absurd (ground arith)
evaluate-equality (some (not_ c)) s path literal h = absurd (ground arith)

pub find-none :
    (p : Edge → Bool) (es : List Edge) (e : Edge) → find p es ≡ none → Memᴰ e es → p e ≡ false
find-none p [] e h m = elim m [ ]
find-none p (d ∷ es) e h (Memᴰ.head q) = rw q (ground arith)
find-none p (d ∷ es) e h (Memᴰ.tail m) = find-none p es e (ground arith) m

pub none-find :
    (p : Edge → Bool) (es : List Edge) → ((e : Edge) → Memᴰ e es → p e ≡ false) → find p es ≡ none
none-find p [] h = refl
none-find p (d ∷ es) h =
    ground (arith, h d (Memᴰ.head refl), none-find p es (λ e m. h e (Memᴰ.tail m)))

mem-cons_map :
    (d e : Edge) (xs ys : List Edge) → (Memᴰ e xs → Memᴰ e ys) → Memᴰ e (d ∷ xs) → Memᴰ e (d ∷ ys)
mem-cons_map d e xs ys f (Memᴰ.head q) = Memᴰ.head q
mem-cons_map d e xs ys f (Memᴰ.tail m) = Memᴰ.tail (f m)

pub filter-mem : (p : Edge → Bool) (es : List Edge) (e : Edge) → Memᴰ e (filter p es) → Memᴰ e es
filter-mem p [] e m = m
filter-mem p (d ∷ es) e m = elim (Bool-cases (p d)) [
  | inl y ↦ mem-cons_map d e (filter p es) es (filter-mem p es e) (rw y at m)
  | inr n ↦ Memᴰ.tail (filter-mem p es e (rw n at m))
]

module _ (sha256_text : Text → String) where
  -- Two edges of which one negates the condition of the other, by the digests of the conditions,
  -- have such conditions: SHA-256 has no collision among the conditions of the edges.
  abbrev pub NoCollision : List Edge → Type 0
  NoCollision es =
      (e f : Edge) (b c : Condition)
      → Memᴰ e es
      → Memᴰ f es
      → e.condition ≡ some (not_ b)
      → f.condition ≡ some c
      → digest sha256_text b ≡ digest sha256_text c
      → b ≡ c

  -- Once the value has been matched, no later edge of the partition is eligible.
  partition-rest :
      (s : State) (path : Text) (literal : Json) (seen : List String) (es : List Edge)
      → partition_from sha256_text (some path) seen es ≡ true
      → strict_eq (get_path (state_json s) path) literal ≡ true
      → includes (sha256_json sha256_text literal) seen ≡ true
      → length (filter (eligible s) es) ≡ 0
  unfolding partition_from
  partition-rest s path literal seen [] h v i = refl
  partition-rest s path literal seen (e ∷ es) h v i =
      elim (Option-cases (equality_of e.condition)) [
        | inl other ↦ absurd (ground arith)
        | inr ((p, l), q) ↦
            let same : path ≡ p = ground (arith, text_eq_iff path p) in
            let d = sha256_json sha256_text l in
            let unequal : strict_eq (get_path (state_json s) p) l ≡ false =
              elim (Bool-cases (strict_eq (get_path (state_json s) p) l)) [
                | inl y ↦
                    let eq : literal ≡ l =
                      strict_eq_unique (get_path (state_json s) p) literal l (rw same at v) y in
                    absurd (ground (arith, ap (sha256_json sha256_text) eq))
                | inr n ↦ n
              ] in
            let off : eligible s e ≡ false = evaluate-equality e.condition s p l q ∙ unequal in
            let later =
              partition-rest s path literal (d ∷ seen) es (ground arith) v (ground arith) in
            ground (arith, off, later)
      ]

  pub partition_exclusive :
      (s : State) (shared : Option Text) (seen : List String) (es : List Edge)
      → partition_from sha256_text shared seen es ≡ true
      → length (filter (eligible s) es) ≤ 1
  unfolding partition_from
  partition_exclusive s shared seen [] h = omega arith
  partition_exclusive s shared seen (e ∷ es) h = elim (Option-cases (equality_of e.condition)) [
    | inl other ↦ absurd (ground arith)
    | inr ((p, l), q) ↦
        let d = sha256_json sha256_text l in
        let tail_ok : partition_from sha256_text (some p) (d ∷ seen) es ≡ true = ground arith in
        elim (Bool-cases (strict_eq (get_path (state_json s) p) l)) [
          | inl y ↦
              let on : eligible s e ≡ true = evaluate-equality e.condition s p l q ∙ y in
              let rest =
                partition-rest s p l (d ∷ seen) es tail_ok y (ground (arith, eq_iff d d)) in
              ground (arith, on, rest)
          | inr n ↦
              let off : eligible s e ≡ false = evaluate-equality e.condition s p l q ∙ n in
              ground (arith, off, partition_exclusive s (some p) (d ∷ seen) es tail_ok)
        ]
  ]

  evaluate-negates :
      (c : Condition) (b : Condition) (s : State)
      → negated c ≡ some b
      → (c ≡ not_ b) × (evaluate c s ≡ not (evaluate b s))
  unfolding evaluate
  evaluate-negates (not_ d) b s h =
      let same : d ≡ b = ground arith in (ap not_ same, ap (λ x. not (evaluate x s)) same)
  evaluate-negates (all_of c) b s h = absurd (ground arith)
  evaluate-negates (equals p l) b s h = absurd (ground arith)
  evaluate-negates (in_ p l) b s h = absurd (ground arith)
  evaluate-negates (exists_ p) b s h = absurd (ground arith)

  -- A condition and one that its digest says is its negation do not hold together.
  pub negates_exclusive :
      (first second : Condition) (s : State)
      → ((b : Condition)
          → first ≡ not_ b
          → digest sha256_text b ≡ digest sha256_text second
          → b ≡ second)
      → negates sha256_text (negated first) second ≡ true
      → evaluate first s ≡ not (evaluate second s)
  unfolding negates
  negates_exclusive first second s collision h = elim (Option-cases (negated first)) [
    | inl other ↦ absurd (ground arith)
    | inr (b, q) ↦
        let (shape, value) = evaluate-negates first b s q in
        let equal : digest sha256_text b ≡ digest sha256_text second =
          ground (arith, eq_iff (digest sha256_text b) (digest sha256_text second)) in
        value ∙ ap (λ x. not (evaluate x s)) (collision b shape equal)
  ]
