-- ===== src/Kernel/Workflow/Validation/Tests.antt =====
-- The sample manifest is accepted, and some defects of it are refused.
use apex_vnext.Common.{◌≡◌, refl, true, false, String, List, [], ◌∷◌, none, ok, err, distinct}
use mathlib.Core.List.{Memᴰ}
use apex_vnext.Kernel.Canonical.{Text, obj, end, units, text_Eq, get_field}
use apex_vnext.Kernel.Workflow.{State, node_of}
use apex_vnext.Kernel.Workflow.Sample.{manifest, manifest_json, edge}
use apex_vnext.Kernel.Workflow.Parse.{parse_node, parse_edge, string_array, array}
use apex_vnext.Kernel.Workflow.Route.{WorkflowRoute, route}
use apex_vnext.Kernel.Workflow.Ambiguity.{assert_non_ambiguous_outgoing_edges}
use apex_vnext.Kernel.Workflow.Ambiguity.Exclusive.{NoCollision}
use apex_vnext.Kernel.Workflow.Invalidation.{InvalidationEntry, invalidation_plan, unknown_node}
use apex_vnext.Kernel.Workflow.Invalidation.Termination.{IsKnown, invalidation_plan_total}
use apex_vnext.Kernel.Workflow.Validation.{
  check_invalidates, validate_manifest, validate_nodes, nodes_and_edges_required,
  gates_1_to_4_required, ids_of,
}
use apex_vnext.Kernel.Workflow.Validation.Acyclic.{is_acyclic}
use apex_vnext.Kernel.Workflow.Validation.Sound.{KnownTargets-checked, validated_manifest_runs}

abbrev digest_of : Text → String
digest_of t = "digest"

accepts : validate_manifest digest_of manifest_json ≡ ok manifest
unfolding validate_manifest parse_node parse_edge string_array array get_field is_acyclic
    assert_non_ambiguous_outgoing_edges
accepts = refl

needs_nodes : validate_manifest digest_of (obj end) ≡ err nodes_and_edges_required
unfolding validate_manifest get_field
needs_nodes = refl

needs_gates : validate_nodes [] ≡ err gates_1_to_4_required
unfolding validate_nodes
needs_gates = refl

finds_cycle :
    is_acyclic (units "a" ∷ units "b" ∷ []) (edge "a" "b" none ∷ edge "b" "a" none ∷ []) ≡ false
unfolding is_acyclic
finds_cycle = refl

no_collision : NoCollision digest_of manifest.edges
no_collision e f b c (Memᴰ.head p) m q r d = absurd (cc (p, q))
no_collision e f b c (Memᴰ.tail (Memᴰ.head p)) m q r d = absurd (cc (p, q))
no_collision e f b c (Memᴰ.tail (Memᴰ.tail m)) m' q r d = elim m [ ]

validated_manifest_runs_example :
    (distinct (ids_of manifest.nodes) ≡ true)
    × ((changed reason : Text)
        → IsKnown manifest changed
        → (plan : List InvalidationEntry) × (invalidation_plan manifest changed reason ≡ ok plan))
    × ((s : State) → (r : WorkflowRoute) × (route manifest s ≡ ok r))
validated_manifest_runs_example =
    validated_manifest_runs digest_of manifest_json manifest accepts no_collision

targets_known : check_invalidates (ids_of manifest.nodes) manifest.nodes ≡ ok tt
unfolding check_invalidates
targets_known = refl

invalidation_plan_total_example :
    (IsKnown manifest (units "requirements")
      → (plan : List InvalidationEntry) × (invalidation_plan manifest
            (units "requirements")
            (units "edited")
          ≡ ok plan))
    × (node_of manifest (units "requirements") ≡ none
        → invalidation_plan manifest (units "requirements") (units "edited")
          ≡ err (unknown_node (units "requirements")))
invalidation_plan_total_example =
    invalidation_plan_total manifest (units "requirements") (units "edited")
      (KnownTargets-checked manifest targets_known)
