-- ===== src/Kernel/Workflow/Parse/Tests.antt =====
-- Conditions and return routes that are parsed, and one that is refused.
use apex_vnext.Common.{◌≡◌, ◌≢◌, refl, [], ◌∷◌, ok, err, ne_of_beq}
use apex_vnext.Kernel.Canonical.{
  Text, Json, str, num, null, obj, field, end, units, text_Eq, get_field,
}
use apex_vnext.Kernel.Workflow.{Condition, all_of, also, none_more, exists_, not_, in_}
use apex_vnext.Kernel.Workflow.Ambiguity.{condition_json}
use apex_vnext.Kernel.Workflow.Parse.{
  parse_condition, parse_return_route, unsupported_operator, invalid_reopens,
}
use apex_vnext.Kernel.Workflow.Parse.RoundTrip.{parse_condition-condition_json}

abbrev condition : Condition
condition =
    all_of
      (also (not_ (exists_ (units "a.b"))) (also (in_ (units "run.status") (null ∷ [])) none_more))

unknown_operator : parse_condition (obj (field (units "any") null end)) ≡ err unsupported_operator
unfolding parse_condition
unknown_operator = refl

abbrev route_from_gate : Text → Json
route_from_gate gate = obj (
    field (units "from") (str (units "deploy")) (
      field (units "to") (str (units "plan")) (
        field (units "reasonCode") (str (units "drift"))
          (field (units "reopensFromGate") (num gate) end))))

no_gate_5 : parse_return_route (route_from_gate (units "5")) ≡ err invalid_reopens
unfolding parse_return_route get_field
no_gate_5 = refl

path_1 : units "a.b" ≢ []
path_1 = ne_of_beq (units "a.b") [] refl

path_2 : units "run.status" ≢ []
path_2 = ne_of_beq (units "run.status") [] refl

parse_condition-condition_json_example : parse_condition (condition_json condition) ≡ ok condition
parse_condition-condition_json_example =
    parse_condition-condition_json condition (path_1, (path_2, tt))
