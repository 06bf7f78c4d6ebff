-- ===== src/Kernel/Workflow/Ambiguity/Sound.antt =====
-- The check of a manifest's edges rules out the error that `route` may throw.
use apex_vnext.Common.{
  ◌≤◌, String, ◌≡◌, refl, ap, Bool, true, false, List, [], ◌∷◌, Option, none, some, ok, arith, inl,
  inr, Bool-cases, Option-cases, find, filter, length, leb, ◌∙◌, ◌||◌,
}
use mathlib.Core.List.{Memᴰ}
use apex_vnext.Kernel.Canonical.{Text}
use apex_vnext.Kernel.Workflow.{Edge, State, evaluate_condition}
use apex_vnext.Kernel.Workflow.Route.{
  eligible, edges_from, leaves, assert_no_multiple_eligible_edges, crowded,
}
use apex_vnext.Kernel.Workflow.Ambiguity.{
  negated, is_complementary_pair, negates, is_disjoint_equals_partition, is_complementary,
  is_ambiguous, refuse_ambiguous, assert_non_ambiguous_outgoing_edges,
}
use apex_vnext.Kernel.Workflow.Ambiguity.Exclusive.{
  NoCollision, find-none, none-find, filter-mem, partition_exclusive, negates_exclusive,
}

unambiguous : (o : Option Edge) → refuse_ambiguous o ≡ ok tt → o ≡ none
unambiguous none h = refl
unambiguous (some e) h = absurd (ground arith)

module _ (sha256_text : Text → String) (es : List Edge) (collision : NoCollision sha256_text es)
    (s : State) where
  pair_exclusive :
      (e f : Edge)
      → Memᴰ e es
      → Memᴰ f es
      → is_complementary_pair sha256_text e.condition f.condition ≡ true
      → length (filter (eligible s) (e ∷ f ∷ [])) ≤ 1
  unfolding is_complementary_pair evaluate_condition
  pair_exclusive e f in_e in_f h = elim (Option-cases e.condition) [
    | inl missing ↦ absurd (ground arith)
    | inr (c, there) ↦ elim (Option-cases f.condition) [
      | inl missing ↦ absurd (ground (arith, there))
      | inr (d, also_there) ↦
          let either : (negates sha256_text (negated c) d || negates sha256_text (negated d) c)
              ≡ true =
            ground (arith, there, also_there) in
          elim (Bool-cases (negates sha256_text (negated c) d)) [
            | inl y ↦
                let opposite =
                  negates_exclusive sha256_text c d s
                    (λ b q k. collision e f b d in_e in_f (there ∙ ap some q) also_there k) y in
                ground (arith, there, also_there, opposite)
            | inr n ↦
                let opposite =
                  negates_exclusive sha256_text d c s
                    (λ b q k. collision f e b c in_f in_e (also_there ∙ ap some q) there k)
                    (ground (arith, either, n)) in
                ground (arith, there, also_there, opposite)
          ]
    ]
  ]

  complementary_exclusive :
      (outgoing : List Edge)
      → ((e : Edge) → Memᴰ e outgoing → Memᴰ e es)
      → is_complementary sha256_text outgoing ≡ true
      → length (filter (eligible s) outgoing) ≤ 1
  unfolding is_complementary
  complementary_exclusive [] sub h = omega arith
  complementary_exclusive (e ∷ []) sub h = absurd (ground arith)
  complementary_exclusive (e ∷ f ∷ []) sub h =
      pair_exclusive e f (sub e (Memᴰ.head refl)) (sub f (Memᴰ.tail (Memᴰ.head refl))) h
  complementary_exclusive (e ∷ f ∷ g ∷ gs) sub h = absurd (ground arith)

  length-filter-le : (p : Edge → Bool) (xs : List Edge) → length (filter p xs) ≤ length xs
  length-filter-le p [] = omega arith
  length-filter-le p (x ∷ xs) = ground (arith, length-filter-le p xs)

  not_crowded : (e : Edge) → is_ambiguous sha256_text es e ≡ false → crowded es s e ≡ false
  unfolding crowded is_ambiguous is_disjoint_equals_partition
  not_crowded e h =
      let outgoing = edges_from e.from es in
      let few : leb 2 (length outgoing) ≡ false → length (filter (eligible s) outgoing) ≤ 1 =
        λ k. ground (arith, length-filter-le (eligible s) outgoing) in
      elim (Bool-cases (is_complementary sha256_text outgoing)) [
        | inl pair ↦ ground (
          arith,
          complementary_exclusive outgoing
              (λ d m. unfold edges_from in filter-mem (leaves e.from) es d m) pair,
        )
        | inr other ↦ elim (Bool-cases (is_disjoint_equals_partition sha256_text outgoing)) [
          | inl partition ↦
              ground (arith, partition_exclusive sha256_text s none [] outgoing partition)
          | inr neither ↦ ground (arith, few, other, neither)
        ]
      ]

  -- If the outgoing edges pass the check that the validation of a manifest makes, then in every
  -- state of every run at most one edge that is no fan-out is eligible out of each node: the check
  -- that `route` makes on each call never throws. (No two different conditions of the edges share
  -- a digest.)
  pub validated_edges_exclusive :
      assert_non_ambiguous_outgoing_edges sha256_text es ≡ ok tt
      → assert_no_multiple_eligible_edges es s ≡ ok tt
  unfolding assert_non_ambiguous_outgoing_edges assert_no_multiple_eligible_edges
  validated_edges_exclusive h =
      let clear : find (is_ambiguous sha256_text es) es ≡ none =
        unambiguous (find (is_ambiguous sha256_text es) es) h in
      rw (
        none-find (crowded es s) es
          (λ e m. not_crowded e (find-none (is_ambiguous sha256_text es) es e clear m)))
