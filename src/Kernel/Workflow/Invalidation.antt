-- ===== src/Kernel/Workflow/Invalidation.antt =====
-- `WorkflowEngine.invalidationPlan`: the nodes that a change reaches, breadth first. The `while` loop
-- takes fuel; `out_of_fuel` stands for a loop that has not ended.
pub mod Closure
pub mod Termination
mod Tests
use apex_vnext.Common.{
  ℕ, zero, suc, ◌+◌, String, Bool, true, false, List, [], ◌∷◌, ◌++◌, Option, none, some, not, ◌==◌,
  if◌then◌else◌, includes, Result, ok, err, ◌>>=◌, map, length,
}
use apex_vnext.Kernel.Canonical.{Text, units, text_Eq}
use apex_vnext.Kernel.Workflow.{Node, Manifest, node_of}

pub record InvalidationEntry : Type 0 where
  pub node_id : Text
  pub reason : Text

pub data InvalidationError : Type 0 where
  unknown_node unknown_target : Text → InvalidationError
  out_of_fuel : InvalidationError

-- The loop over `pending`, which returns the ids that it adds to the plan, given those that it has
-- seen: an id that was seen is dropped, and a new one queues what its node invalidates.
pub collect : Manifest → ℕ → List Text → List Text → Result InvalidationError (List Text)
collect m fuel [] seen = ok []
collect m zero (id ∷ pending) seen = err out_of_fuel
collect m (suc fuel) (id ∷ pending) seen = elim (includes id seen) [
  | true ↦ collect m fuel pending seen
  | false ↦ elim (node_of m id) [
    | none ↦ err (unknown_target id)
    | some n ↦ do later ← collect m fuel (pending ++ n.invalidates) (id ∷ seen); ok (id ∷ later)
  ]
]

-- Every round takes one entry off the queue, and a node queues its targets once.
abbrev pub targets : List Node → ℕ
targets [] = 0
targets (n ∷ ns) = length n.invalidates + targets ns

abbrev pub plan_fuel : Manifest → Node → ℕ
plan_fuel m n = length n.invalidates + targets m.nodes

abbrev pub entry : Text → Text → Text → InvalidationEntry
entry changed reason id = record { node_id = id; reason = changed ++ units ": " ++ reason }

unfoldable pub invalidation_plan :
    Manifest → Text → Text → Result InvalidationError (List InvalidationEntry)
unfolding collect
invalidation_plan m changed reason = elim (node_of m changed) [
  | none ↦ err (unknown_node changed)
  | some start ↦ do
    ids ← collect m (plan_fuel m start) start.invalidates []
    ok (map (entry changed reason) ids)
]
