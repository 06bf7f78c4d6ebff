-- ===== src/Kernel/Improvement/Steps.antt =====
-- The operations of packages/kernel/src/improvement-store.ts in any order.
use apex_vnext.Common.{◌≡◌, ◌≤◌, ℕ, String, Bool, List, [], ok}
use apex_vnext.Kernel.Improvement.{
  ImprovementPolicy, ObservationInput, Observation, Proposal, ImprovementDecision, DecisionInput,
  ImprovementDisk, ImprovementHost, observe, decide, delete_observation, prune,
}

-- The steps of a store, one after the other. A scan writes proposals only.
pub data ImprovementStep (host : ImprovementHost) (policy : ImprovementPolicy) (now : ℕ)
    (disk : ImprovementDisk) : ImprovementDisk → Type 0 where
  observes :
      (i : ObservationInput) (first : ℕ) {out : Observation × Bool × ImprovementDisk}
      → observe host policy disk i first now ≡ ok out
      → ImprovementStep host policy now disk out.2
  decides :
      (i : DecisionInput) {out : ImprovementDecision × ImprovementDisk}
      → decide host disk i now ≡ ok out
      → ImprovementStep host policy now disk out.1
  deletes :
      (name : String) {disk' : ImprovementDisk}
      → delete_observation disk name ≡ ok disk'
      → ImprovementStep host policy now disk disk'
  prunes :
      {out : ImprovementDisk × ℕ × ℕ}
      → prune host policy disk now ≡ ok out
      → ImprovementStep host policy now disk out.0
  scans :
      (proposals : List (String × Proposal))
      → ImprovementStep host policy now disk (record disk { proposals = proposals })

-- Any steps, at any times, from a store without observations and decisions.
pub data ImprovementReach (host : ImprovementHost) (policy : ImprovementPolicy)
    : ImprovementDisk → Type 0 where
  begun :
      {disk : ImprovementDisk}
      → disk.observations ≡ []
      → disk.decisions ≡ []
      → ImprovementReach host policy disk
  stepped :
      {disk disk' : ImprovementDisk} (now : ℕ)
      → ImprovementReach host policy disk
      → ImprovementStep host policy now disk disk'
      → ImprovementReach host policy disk'

-- Steps up to the time `until`.
pub data ImprovementTrace (host : ImprovementHost) (policy : ImprovementPolicy) (until : ℕ)
    (disk : ImprovementDisk) : ImprovementDisk → Type 0 where
  resting : ImprovementTrace host policy until disk disk
  onward :
      {disk' disk'' : ImprovementDisk} (now : ℕ)
      → ImprovementTrace host policy until disk disk'
      → now ≤ until
      → ImprovementStep host policy now disk' disk''
      → ImprovementTrace host policy until disk disk''
