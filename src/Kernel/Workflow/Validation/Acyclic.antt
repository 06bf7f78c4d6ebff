-- ===== src/Kernel/Workflow/Validation/Acyclic.antt =====
-- `assertAcyclic`: nodes with no incoming edge are removed until none is left. The `while` loop takes
-- one round for each node that it removes, so the number of the nodes is enough fuel; a queue that
-- is not empty when the fuel is used up holds a node that was removed before.
use apex_vnext.Common.{
  ℕ, zero, suc, ◌-◌, Bool, false, List, [], ◌∷◌, ◌++◌, ◌==◌, nat_Eq, if◌then◌else◌, filter, length,
  map,
}
use apex_vnext.Kernel.Canonical.{Text, text_Eq}
use apex_vnext.Kernel.Workflow.{Edge}

-- `incoming`: for each node the edges into it that are left.
abbrev Counts : Type 0
Counts = List (Text × ℕ)

abbrev edges_into : Text → List Edge → ℕ
edges_into id es = length (filter (λ (e : Edge). e.to == id) es)

initial_counts : List Text → List Edge → Counts
initial_counts [] es = []
initial_counts (id ∷ ids) es = (id, edges_into id es) ∷ initial_counts ids es

abbrev successors : Text → List Edge → List Text
successors id es = map (λ (e : Edge). e.to) (filter (λ (e : Edge). e.from == id) es)

-- One edge into `target` less: the counts, and whether none is left.
lower : Text → Counts → Counts × Bool
lower target [] = ([], false)
lower target ((id, n) ∷ counts) =
    let (rest, gone) = lower target counts in
    if id == target then ((id, n - 1) ∷ counts, n == 1) else ((id, n) ∷ rest, gone)

-- The inner loop: the counts, and the nodes that have no incoming edge any more.
lower_all : List Text → Counts → Counts × List Text
unfolding lower
lower_all [] counts = (counts, [])
lower_all (t ∷ ts) counts =
    let (counts', gone) = lower t counts in
    let (counts'', free) = lower_all ts counts' in (counts'', if gone then t ∷ free else free)

pub visit_all : List Edge → ℕ → List Text → Counts → ℕ
unfolding lower_all
visit_all es fuel [] counts = 0
visit_all es zero (id ∷ pending) counts = 1
visit_all es (suc fuel) (id ∷ pending) counts =
    let (counts', free) = lower_all (successors id es) counts in
    suc (visit_all es fuel (pending ++ free) counts')

no_incoming : Counts → List Text
no_incoming [] = []
no_incoming ((id, n) ∷ counts) = let rest = no_incoming counts in if n == 0 then id ∷ rest else rest

unfoldable pub is_acyclic : List Text → List Edge → Bool
unfolding initial_counts visit_all no_incoming
is_acyclic ids es =
    let counts = initial_counts ids es in
    visit_all es (length ids) (no_incoming counts) counts == length ids
