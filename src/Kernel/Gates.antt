-- ===== src/Kernel/Gates.antt =====
-- packages/kernel/src/gates.ts, with the gate record of packages/contracts/src/runtime.ts.
-- A field that an object may lack is an `Option`; `throw` is `err`.
pub mod Lifecycle
mod Tests
use apex_vnext.Common.{
  ℕ, String, Bool, true, false, ◌&&◌, ◌||◌, Option, none, some, Result, ok, err, not, ◌==◌, nat_Eq,
  string_Eq, if◌then◌else◌, refuse, ◌>>=◌, ◌>>◌,
}

pub data DeploymentPurpose : Type 0 where
  lab production : DeploymentPurpose

pub data GateState : Type 0 where
  closed open_ ready approved inherited rejected invalidated : GateState

pub record GateRecord : Type 0 where
  pub gate : ℕ
  pub state : GateState
  pub dependency_hash : String
  pub decided_at : Option String
  pub inherited_from_run_id : Option String
  pub reason : Option String
  pub ready_at : Option String

pub data GateError : Type 0 where
  cannot_open : ℕ → GateState → GateError
  cannot_be_ready : ℕ → DeploymentPurpose → GateError
  not_open : ℕ → GateError
  gate_4_not_inherited : GateError
  readiness_not_inherited : ℕ → GateError
  not_approved_for_inheritance : ℕ → GateError

abbrev pub is_lab : DeploymentPurpose → Bool
is_lab lab = true
is_lab production = false

abbrev pub is_open : GateState → Bool
is_open open_ = true
is_open _ = false

abbrev pub is_ready : GateState → Bool
is_ready ready = true
is_ready _ = false

-- `state === "closed" || state === "invalidated"`.
abbrev pub can_open : GateState → Bool
can_open closed = true
can_open invalidated = true
can_open _ = false

-- `state === "approved" || state === "inherited"`.
abbrev pub is_passed : GateState → Bool
is_passed approved = true
is_passed inherited = true
is_passed _ = false

-- The object `{ gate, state, dependencyHash }`.
abbrev pub bare : ℕ → GateState → String → GateRecord
bare gate state dependency_hash = record {
  gate = gate;
  state = state;
  dependency_hash = dependency_hash;
  decided_at = none;
  inherited_from_run_id = none;
  reason = none;
  ready_at = none;
}

unfoldable pub open_gate : GateRecord → String → Result GateError GateRecord
open_gate g dependency_hash =
    if can_open g.state
    then ok (bare g.gate open_ dependency_hash)
    else err (cannot_open g.gate g.state)

unfoldable pub is_readiness_gate : DeploymentPurpose → ℕ → Bool
is_readiness_gate purpose gate_number = is_lab purpose && (gate_number == 2 || gate_number == 3)

unfoldable pub mark_gate_ready :
    GateRecord → DeploymentPurpose → String → Result GateError GateRecord
unfolding is_readiness_gate
mark_gate_ready g purpose ready_at = do
  refuse (not (is_readiness_gate purpose g.gate)) (cannot_be_ready g.gate purpose)
  refuse (not (is_open g.state)) (not_open g.gate)
  ok (record (bare g.gate ready g.dependency_hash) { ready_at = some ready_at })

-- The decisions that a person takes.
pub data Decision : Type 0 where
  approve reject : Decision

abbrev pub decision_state : Decision → GateState
decision_state approve = approved
decision_state reject = rejected

-- `{ ...gate, ... }`: a reason that is not given leaves the one that is there.
abbrev pub keep_reason : Option String → Option String → Option String
keep_reason none old = old
keep_reason (some r) old = some r

unfoldable pub decide_gate :
    GateRecord → Decision → String → Option String → Result GateError GateRecord
decide_gate g decision decided_at reason = do
  refuse (not (is_open g.state)) (not_open g.gate)
  ok (record g {
    state = decision_state decision;
    decided_at = some decided_at;
    reason = keep_reason reason g.reason;
  })

unfoldable pub invalidate_gate : GateRecord → String → String → GateRecord
invalidate_gate g dependency_hash reason = record (bare g.gate invalidated dependency_hash) {
  reason = some reason;
}

unfoldable pub inherit_gate : GateRecord → String → String → String → Result GateError GateRecord
inherit_gate g from_run_id dependency_hash decided_at = do
  refuse (g.gate == 4) gate_4_not_inherited
  refuse (is_ready g.state) (readiness_not_inherited g.gate)
  refuse (not (g.dependency_hash == dependency_hash) || not (is_passed g.state))
      (not_approved_for_inheritance g.gate)
  ok (record (bare g.gate inherited dependency_hash) {
    inherited_from_run_id = some from_run_id;
    decided_at = some decided_at;
  })
