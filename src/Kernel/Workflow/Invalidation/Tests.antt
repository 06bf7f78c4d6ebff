-- ===== src/Kernel/Workflow/Invalidation/Tests.antt =====
-- What changes of the sample manifest invalidate.
use apex_vnext.Common.{◌≡◌, refl, true, List, [], ◌∷◌, ok, err, includes, distinct, map}
use apex_vnext.Kernel.Canonical.{Text, units, text_Eq}
use apex_vnext.Kernel.Workflow.{node_of}
use apex_vnext.Kernel.Workflow.Sample.{manifest}
use apex_vnext.Kernel.Workflow.Invalidation.{
  InvalidationEntry, invalidation_plan, entry, unknown_node,
}
use apex_vnext.Kernel.Workflow.Invalidation.Closure.{Invalidates, ids_of, invalidation_plan-exact}

abbrev expected_plan : List InvalidationEntry
expected_plan =
    map (entry (units "requirements") (units "edited"))
      (units "gate-1" ∷ units "bicep-plan" ∷ units "terraform-plan" ∷ units "deploy" ∷ [])

plans : invalidation_plan manifest (units "requirements") (units "edited") ≡ ok expected_plan
unfolding invalidation_plan node_of
plans = refl

unknown : invalidation_plan manifest (units "x") (units "edited") ≡ err (unknown_node (units "x"))
unfolding invalidation_plan node_of
unknown = refl

invalidation_plan-exact_example :
    ((x : Text)
      → includes x (ids_of expected_plan) ≡ true
      → Invalidates manifest (units "requirements") x)
    × ((x : Text)
        → Invalidates manifest (units "requirements") x
        → includes x (ids_of expected_plan) ≡ true)
    × (distinct (ids_of expected_plan) ≡ true)
    × (expected_plan ≡ map (entry (units "requirements") (units "edited")) (ids_of expected_plan))
invalidation_plan-exact_example =
    invalidation_plan-exact manifest (units "requirements") (units "edited") expected_plan plans
