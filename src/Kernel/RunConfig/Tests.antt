-- ===== src/Kernel/RunConfig/Tests.antt =====
-- A lab run and a production run that record gate 2 as ready.
use apex_vnext.Common.{◌≡◌, refl, true, false, Bool, [], ◌∷◌, ok, err}
use apex_vnext.Kernel.Gates.{is_readiness_gate}
use apex_vnext.Kernel.Canonical.{Json, str, num, arr, obj, field, end, cons, nil, units, member}
use apex_vnext.Kernel.RunConfig.{
  parse_run_config, ready_not_allowed, schema_mismatch, readiness_gate_issues, issues_from,
  has_issue, purpose_of,
}

abbrev ready_gate_2 : Json
ready_gate_2 =
    obj (field (units "gate") (num (units "2")) (field (units "state") (str (units "ready")) end))

abbrev run_for : Json → Json
run_for purpose =
    obj (field (units "purpose") purpose (field (units "gates") (arr (cons ready_gate_2 nil)) end))

abbrev lab_run : Json
lab_run = run_for (str (units "lab"))

abbrev production_run : Json
production_run = run_for (str (units "production"))

abbrev any_shape : Json → Bool
any_shape v = true

lab_run_parses : parse_run_config any_shape lab_run ≡ ok lab_run
unfolding parse_run_config readiness_gate_issues issues_from has_issue purpose_of member
    is_readiness_gate
lab_run_parses = refl

production_run_fails : parse_run_config any_shape production_run ≡ err (ready_not_allowed (0 ∷ []))
unfolding parse_run_config readiness_gate_issues issues_from has_issue purpose_of member
    is_readiness_gate
production_run_fails = refl

other_shape : parse_run_config (λ v. false) lab_run ≡ err schema_mismatch
unfolding parse_run_config
other_shape = refl
