-- ===== src/Kernel/Workflow/Ambiguity/Tests.antt =====
-- Two edges of which one has the condition that the other negates.
use apex_vnext.Common.{
  String, ◌≡◌, ◌≢◌, refl, List, [], ◌∷◌, some, ok, err, leb, length, if◌then◌else◌, ne_of_beq,
  string_Eq,
}
use mathlib.Core.List.{Memᴰ}
use apex_vnext.Kernel.Canonical.{Text, units, sha256_json}
use apex_vnext.Kernel.Workflow.{Condition, exists_, not_, Edge}
use apex_vnext.Kernel.Workflow.Sample.{edge, state_with}
use apex_vnext.Kernel.Workflow.Route.{assert_no_multiple_eligible_edges}
use apex_vnext.Kernel.Workflow.Ambiguity.{
  condition_json, digest, assert_non_ambiguous_outgoing_edges, ambiguous_edges,
}
use apex_vnext.Kernel.Workflow.Ambiguity.Exclusive.{NoCollision}
use apex_vnext.Kernel.Workflow.Ambiguity.Sound.{validated_edges_exclusive}

-- A digest that tells the two conditions apart.
abbrev digest_of : Text → String
digest_of t = if leb (length t) 25 then "short" else "long"

abbrev a_exists : Condition
a_exists = exists_ (units "a")

abbrev either : Edge
either = edge "n" "yes" (some a_exists)

abbrev or_not : Edge
or_not = edge "n" "no" (some (not_ a_exists))

abbrev pair : List Edge
pair = either ∷ or_not ∷ []

digests_differ : digest digest_of a_exists ≢ digest digest_of (not_ a_exists)
unfolding sha256_json condition_json
digests_differ = ne_of_beq "short" "long" refl

no_collision : NoCollision digest_of pair
no_collision e f b c (Memᴰ.head p) m q r d = absurd (cc (p, q))
no_collision e f b c (Memᴰ.tail (Memᴰ.head p)) (Memᴰ.head p') q r d = cc (p, p', q, r)
no_collision e f b c (Memᴰ.tail (Memᴰ.head p)) (Memᴰ.tail (Memᴰ.head p')) q r d =
    let here : a_exists ≡ b = cc (p, q) in
    let there : not_ a_exists ≡ c = cc (p', r) in absurd (digests_differ (cc (here, there, d)))
no_collision e f b c m (Memᴰ.tail (Memᴰ.tail m')) q r d = elim m' [ ]
no_collision e f b c (Memᴰ.tail (Memᴰ.tail m)) m' q r d = elim m [ ]

pair_passes : assert_non_ambiguous_outgoing_edges digest_of pair ≡ ok tt
unfolding assert_non_ambiguous_outgoing_edges sha256_json condition_json
pair_passes = refl

twice_fails :
    assert_non_ambiguous_outgoing_edges digest_of (either ∷ either ∷ [])
    ≡ err (ambiguous_edges (units "n"))
unfolding assert_non_ambiguous_outgoing_edges sha256_json condition_json
twice_fails = refl

validated_edges_exclusive_example :
    assert_no_multiple_eligible_edges pair (state_with [] []) ≡ ok tt
validated_edges_exclusive_example =
    validated_edges_exclusive digest_of pair no_collision (state_with [] []) pair_passes
