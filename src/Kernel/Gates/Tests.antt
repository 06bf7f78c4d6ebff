-- ===== src/Kernel/Gates/Tests.antt =====
-- Runs of gates.ts on concrete gates, and each of its theorems at one of them.
use apex_vnext.Common.{◌≡◌, refl, none, some, ok, err}
use apex_vnext.Kernel.Gates.{
  GateRecord, closed, open_, approved, inherited, ready, lab, production, approve, bare, open_gate,
  mark_gate_ready, decide_gate, inherit_gate, cannot_be_ready, gate_4_not_inherited,
}
use apex_vnext.Kernel.Gates.Lifecycle.{Reach, here, next, opened, readied, IsShaped, Reach-IsShaped}

abbrev opened_gate : GateRecord
opened_gate = bare 2 open_ "h1"

abbrev ready_gate : GateRecord
ready_gate = record (bare 2 ready "h1") { ready_at = some "t2" }

abbrev approved_gate : GateRecord
approved_gate = record (bare 2 approved "h1") { decided_at = some "t2" }

abbrev inherited_gate : GateRecord
inherited_gate = record (bare 2 inherited "h1") {
  inherited_from_run_id = some "run-1";
  decided_at = some "t3";
}

open_gate_runs : open_gate (bare 2 closed "h0") "h1" ≡ ok opened_gate
unfolding open_gate
open_gate_runs = refl

ready_in_lab : mark_gate_ready opened_gate lab "t2" ≡ ok ready_gate
unfolding mark_gate_ready
ready_in_lab = refl

not_ready_in_production :
    mark_gate_ready opened_gate production "t2" ≡ err (cannot_be_ready 2 production)
unfolding mark_gate_ready
not_ready_in_production = refl

approve_runs : decide_gate opened_gate approve "t2" none ≡ ok approved_gate
unfolding decide_gate
approve_runs = refl

inherit_runs : inherit_gate approved_gate "run-1" "h1" "t3" ≡ ok inherited_gate
unfolding inherit_gate
inherit_runs = refl

gate_4_stays : inherit_gate (bare 4 approved "h1") "run-1" "h1" "t3" ≡ err gate_4_not_inherited
unfolding inherit_gate
gate_4_stays = refl

abbrev to_ready : Reach lab (bare 2 closed "h0") ready_gate
to_ready = next (next here (opened "h1" open_gate_runs)) (readied "t2" ready_in_lab)

Reach-IsShaped_example : IsShaped lab ready_gate
Reach-IsShaped_example = Reach-IsShaped to_ready
