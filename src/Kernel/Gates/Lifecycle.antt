-- ===== src/Kernel/Gates/Lifecycle.antt =====
-- The life of one gate: the records that the operations of gates.ts can produce from a closed gate.
use apex_vnext.Common.{ℕ, String, ◌≡◌, ◌≢◌, Option, none, ok, arith, ◌⊎◌}
use apex_vnext.Kernel.Gates.{
  GateRecord, closed, open_, ready, approved, inherited, DeploymentPurpose, lab, Decision, approve,
  reject, bare, open_gate, mark_gate_ready, decide_gate, invalidate_gate, inherit_gate,
}

-- One call of an operation on the record of a gate in a run with the given purpose. A gate is
-- inherited from the record of the same gate in another run of the same project.
pub data Step (purpose : DeploymentPurpose) : GateRecord → GateRecord → Type 0 where
  opened : {g g' : GateRecord} (hash : String) → open_gate g hash ≡ ok g' → Step purpose g g'
  readied :
      {g g' : GateRecord} (at : String) → mark_gate_ready g purpose at ≡ ok g' → Step purpose g g'
  decided :
      {g g' : GateRecord} (d : Decision) (at : String) (reason : Option String)
      → decide_gate g d at reason ≡ ok g'
      → Step purpose g g'
  invalidated_ :
      {g g' : GateRecord} (hash reason : String)
      → invalidate_gate g hash reason ≡ g'
      → Step purpose g g'
  inherited_ :
      {g g' : GateRecord} (parent : GateRecord) (from hash at : String)
      → parent.gate ≡ g.gate
      → inherit_gate parent from hash at ≡ ok g'
      → Step purpose g g'

pub data Reach (purpose : DeploymentPurpose) (g : GateRecord) : GateRecord → Type 0 where
  here : Reach purpose g g
  next : {t u : GateRecord} → Reach purpose g t → Step purpose t u → Reach purpose g u

-- What the two shapes of the schema `GateRecordV1Schema` say, with the limits on `ready`.
pub record IsShaped (purpose : DeploymentPurpose) (g : GateRecord) : Type 0 where
  pub ready_lab : g.state ≡ ready → (purpose ≡ lab) × ((g.gate ≡ 2) ⊎ (g.gate ≡ 3))
  pub ready_undecided :
      g.state ≡ ready → (g.decided_at ≡ none) × (g.inherited_from_run_id ≡ none) × (g.reason ≡ none)
  pub ready_stamped : g.state ≡ ready → g.ready_at ≢ none
  pub ready_only : g.state ≢ ready → g.ready_at ≡ none
  pub open_blank :
      g.state ≡ open_ → (g.decided_at ≡ none) × (g.inherited_from_run_id ≡ none) × (g.reason ≡ none)
  pub approved_dated : g.state ≡ approved → g.decided_at ≢ none
  pub approved_here : g.state ≡ approved → g.inherited_from_run_id ≡ none
  pub inherited_not_4 : g.state ≡ inherited → (g.gate ≢ 4) × (g.inherited_from_run_id ≢ none)

pub IsShaped-closed :
    (purpose : DeploymentPurpose) (n : ℕ) (hash : String) → IsShaped purpose (bare n closed hash)
IsShaped-closed purpose n hash = ground arith

Step-IsShaped :
    {purpose : DeploymentPurpose} {g g' : GateRecord}
    → Step purpose g g'
    → IsShaped purpose g
    → IsShaped purpose g'
unfolding open_gate mark_gate_ready decide_gate invalidate_gate inherit_gate
Step-IsShaped (opened hash e) h = ground arith
Step-IsShaped (readied at e) h = ground arith
Step-IsShaped (decided d at reason e) h = ground arith
Step-IsShaped (invalidated_ hash reason e) h = ground arith
Step-IsShaped (inherited_ parent from hash at p e) h = ground arith

-- Every record that the operations produce from a closed gate is well shaped: `ready` occurs in lab
-- runs for gates 2 and 3 alone, with its time stamp and no actor, decision or inheritance field;
-- no other state has that stamp; an approval has its date and is not an inherited one; gate 4 is
-- never inherited, and an inherited gate names the run that it comes from.
pub Reach-IsShaped :
    {purpose : DeploymentPurpose} {n : ℕ} {hash : String} {g : GateRecord}
    → Reach purpose (bare n closed hash) g
    → IsShaped purpose g
Reach-IsShaped {purpose} {n} {hash} here = IsShaped-closed purpose n hash
Reach-IsShaped (next r s) = Step-IsShaped s (Reach-IsShaped r)

Step-gate : {purpose : DeploymentPurpose} {g g' : GateRecord} → Step purpose g g' → g'.gate ≡ g.gate
unfolding open_gate mark_gate_ready decide_gate invalidate_gate inherit_gate
Step-gate (opened hash e) = ground arith
Step-gate (readied at e) = ground arith
Step-gate (decided d at reason e) = ground arith
Step-gate (invalidated_ hash reason e) = ground arith
Step-gate (inherited_ parent from hash at p e) = ground arith

-- The only operation that produces an approved record is a person's approval of an open gate, and
-- the approval is for the dependencies that the gate was opened with.
approved_by_decision :
    {purpose : DeploymentPurpose} {g g' : GateRecord}
    → Step purpose g g'
    → g'.state ≡ approved
    → (g.state ≡ open_)
      × (g'.dependency_hash ≡ g.dependency_hash)
      × ((at : String) × (reason : Option String) × (decide_gate g approve at reason ≡ ok g'))
unfolding open_gate mark_gate_ready decide_gate invalidate_gate inherit_gate
approved_by_decision (opened hash e) h = absurd (ground arith)
approved_by_decision (readied at e) h = absurd (ground arith)
approved_by_decision (decided approve at reason e) h = (ground arith, ground arith, (at, reason, e))
approved_by_decision (decided reject at reason e) h = absurd (ground arith)
approved_by_decision (invalidated_ hash reason e) h = absurd (ground arith)
approved_by_decision (inherited_ parent from hash at p e) h = absurd (ground arith)
