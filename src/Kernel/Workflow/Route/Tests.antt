-- ===== src/Kernel/Workflow/Route/Tests.antt =====
-- Routes through the sample manifest.
use apex_vnext.Common.{◌≡◌, refl, false, [], ◌∷◌, none, ok}
use apex_vnext.Kernel.Canonical.Sorting.{place_text, sort_texts}
use apex_vnext.Kernel.Canonical.{units, text_Eq, text_lt, member}
use apex_vnext.Kernel.Workflow.{State, evaluate, evaluate_condition, active_validator_ids}
use apex_vnext.Kernel.Workflow.Sample.{manifest, requirements, bicep_plan, state_with}
use apex_vnext.Kernel.Workflow.Route.{
  task_route, route, is_skipped, blockers_of, dependency_satisfied, state_in,
  assert_no_multiple_eligible_edges,
}
use apex_vnext.Kernel.Workflow.Route.Laws.{Proposed, route-Proposed}

abbrev at_start : State
at_start = state_with [] []

abbrev behind_gate_1 : State
behind_gate_1 =
    state_with (units "requirements" ∷ units "gate-1" ∷ [])
      ((units "gate-1", units "approved") ∷ [])

starts_with_requirements : route manifest at_start ≡ ok (task_route requirements)
unfolding route is_skipped blockers_of assert_no_multiple_eligible_edges evaluate_condition
starts_with_requirements = refl

goes_on_with_bicep : route manifest behind_gate_1 ≡ ok (task_route bicep_plan)
unfolding route is_skipped blockers_of dependency_satisfied assert_no_multiple_eligible_edges
    evaluate_condition evaluate member
goes_on_with_bicep = refl

sorts : sort_texts (units "b" ∷ units "a" ∷ []) ≡ units "a" ∷ units "b" ∷ []
unfolding sort_texts place_text text_lt
sorts = refl

no_validators : active_validator_ids manifest at_start ≡ []
unfolding active_validator_ids evaluate_condition evaluate member
no_validators = refl

route-Proposed_example :
    Proposed manifest behind_gate_1 (task_route bicep_plan) manifest.nodes
    × (state_in none manifest.terminal_states ≡ false)
    × (state_in none manifest.blocked_states ≡ false)
route-Proposed_example =
    route-Proposed manifest behind_gate_1 (task_route bicep_plan) (units "bicep-plan")
      goes_on_with_bicep refl
