-- ===== src/Kernel/Workflow/Route.antt =====
-- `WorkflowEngine.route` and `dependencySatisfied`.
pub mod Laws
mod Tests
use apex_vnext.Common.{
  ℕ, ◌+◌, String, Bool, true, false, ◌&&◌, ◌||◌, List, [], ◌∷◌, ◌++◌, Option, none, some, not, ◌==◌,
  nat_Eq, if◌then◌else◌, is_some, find, any, filter, includes, Result, ok, err, ◌>>=◌, ◌>>◌, leb,
  length, map, or_else,
}
use mathlib.Core.Option
use apex_vnext.Kernel.Canonical.Sorting.{sort_texts}
use apex_vnext.Kernel.Canonical.{Text, Json, obj, end, field, units, text_Eq, text_eq, text_lt}
use apex_vnext.Kernel.Workflow.{
  Condition, Node, Edge, Manifest, State, split_dots, get_path, strict_eq, evaluate_condition,
  node_of, completed_of, gate_state,
}
use apex_vnext.Kernel.RunConfig.{is_text}

pub record WorkflowRoute : Type 0 where
  pub current_node : Option Text
  pub next_task : Option Text
  pub owner_role : Option Text
  pub blockers : List Text
  pub terminal : Bool

pub data RouteError : Type 0 where
  multiple_eligible_edges : Text → RouteError

pub starts_with : Text → Text → Bool
starts_with [] t = true
starts_with (c ∷ s) [] = false
starts_with (c ∷ s) (d ∷ t) = c == d && starts_with s t

abbrev drop_same : Text → Text → Text
drop_same [] t = t
drop_same (c ∷ s) [] = []
drop_same (c ∷ s) (d ∷ t) = drop_same s t

-- `dependency.split(".")[0]`.
abbrev first_of_parts : List Text → Text → Text
first_of_parts [] dependency = dependency
first_of_parts (root ∷ _) dependency = root

pub root_of : Text → Text
unfolding split_dots
root_of dependency = first_of_parts (split_dots dependency) dependency

abbrev pub is_state : Text → Option Text → Bool
is_state t none = false
is_state t (some u) = u == t

-- The object `{ run, artifacts }`.
abbrev inputs_json : State → Json
inputs_json s = obj (field (units "run") s.run (field (units "artifacts") s.artifacts end))

-- The gate part of `dependencySatisfied`.
pub gate_satisfied : Text → State → Bool
unfolding get_path
gate_satisfied root s =
    let g = gate_state s root in
    is_state (units "approved") g
    || is_state (units "inherited") g
    || (is_state (units "ready") g
        && (root == units "gate-2" || root == units "gate-3")
        && is_text (units "lab") (get_path s.run (units "purpose")))

pub dependency_satisfied : Text → State → Bool
unfolding root_of starts_with gate_satisfied get_path
dependency_satisfied dependency s =
    let root = root_of dependency in
    if includes root (completed_of s)
    then true
    else if starts_with (units "gate-") root
    then gate_satisfied root s
    else if starts_with (units "run-config.") dependency
    then is_some (get_path s.run (drop_same (units "run-config.") dependency))
    else is_some (get_path (inputs_json s) (units "artifacts." ++ dependency))
      || is_some (get_path (inputs_json s) dependency)

-- `assertNoMultipleEligibleEdges`: the edges that leave one node, less the fan-outs.
abbrev pub leaves : Text → Edge → Bool
leaves from e = not e.fanout && e.from == from

abbrev pub eligible : State → Edge → Bool
eligible s e = evaluate_condition e.condition s

unfoldable pub edges_from : Text → List Edge → List Edge
edges_from from es = filter (leaves from) es

unfoldable pub crowded : List Edge → State → Edge → Bool
crowded es s e = not e.fanout && leb 2 (length (filter (eligible s) (edges_from e.from es)))

abbrev multiple : Option Edge → Result RouteError Unit
multiple none = ok tt
multiple (some e) = err (multiple_eligible_edges e.from)

unfoldable pub assert_no_multiple_eligible_edges : List Edge → State → Result RouteError Unit
unfolding crowded edges_from
assert_no_multiple_eligible_edges es s = multiple (find (crowded es s) es)

abbrev blocked_owner : Manifest → Option Text
blocked_owner m = Option.map (λ (n : Node). n.owner_role) (node_of m (units "blocked"))

abbrev rejected_route : Manifest → Text → WorkflowRoute
rejected_route m root = record {
  current_node = some (units "approval-rejected");
  next_task = none;
  owner_role = blocked_owner m;
  blockers = units "approval-rejected" ∷ (root ++ units ":rejected") ∷ [];
  terminal = false;
}

abbrev no_route : WorkflowRoute
no_route = record {
  current_node = none;
  next_task = none;
  owner_role = none;
  blockers = units "no-eligible-node" ∷ [];
  terminal = false;
}

abbrev waiting_route : Node → List Text → WorkflowRoute
waiting_route n blockers = record {
  current_node = some n.id;
  next_task = none;
  owner_role = some n.owner_role;
  blockers = blockers;
  terminal = false;
}

abbrev pub task_route : Node → WorkflowRoute
task_route n = record {
  current_node = some n.id;
  next_task = some n.id;
  owner_role = some n.owner_role;
  blockers = [];
  terminal = false;
}

-- A node that the loop skips: `kind === "terminal" || completed.has(id) || !condition`.
pub is_skipped : Node → State → Bool
is_skipped n s =
    n.kind == units "terminal"
    || includes n.id (completed_of s)
    || not (evaluate_condition n.condition s)

abbrev can_reject : Manifest → Bool
can_reject m = includes (units "approval-rejected") m.blocked_states

pub is_rejected_gate : State → Text → Bool
unfolding starts_with
is_rejected_gate s root =
    starts_with (units "gate-") root && is_state (units "rejected") (gate_state s root)

pub blockers_of : Node → State → List Text
blockers_of n s = filter (λ d. not (dependency_satisfied d s)) n.source_dependencies

has_active_predecessor : Manifest → Node → State → Bool
has_active_predecessor m n s =
    any (λ (e : Edge). e.to == n.id && includes e.from (completed_of s) && eligible s e) m.edges

-- The end of the body of the loop: a node that waits is shown if something leads to it.
visit_waiting : Manifest → State → Bool → Node → List Text → Option WorkflowRoute
unfolding has_active_predecessor
visit_waiting m s is_first n blockers =
    if has_active_predecessor m n s || is_first
    then some (waiting_route n (sort_texts blockers))
    else none

-- The rest of the body of the loop, for a node that has blockers.
visit_blocked : Manifest → State → Bool → Node → List Text → Option Text → Option WorkflowRoute
unfolding visit_waiting
visit_blocked m s is_first n blockers none = visit_waiting m s is_first n blockers
visit_blocked m s is_first n blockers (some root) =
    if can_reject m then some (rejected_route m root) else visit_waiting m s is_first n blockers

-- What the body of the loop returns for a node that is not skipped; `none` goes on to the next.
pub visit : Manifest → State → Bool → Node → Option WorkflowRoute
unfolding has_active_predecessor is_rejected_gate root_of visit_blocked
visit m s is_first n =
    let blockers = blockers_of n s in
    if (n.kind == units "gate" && is_state (units "rejected") (gate_state s n.id)) && can_reject m
    then some (rejected_route m n.id)
    else if leb (length blockers) 0
    then some (task_route n)
    else visit_blocked m s is_first n blockers (find (is_rejected_gate s) (map root_of blockers))

pub route_from : Manifest → State → Bool → List Node → WorkflowRoute
route_from m s is_first [] = no_route
route_from m s is_first (n ∷ ns) =
    let rest = route_from m s false ns in
    if is_skipped n s then rest else or_else (visit m s is_first n) rest

abbrev terminal_route : Text → WorkflowRoute
terminal_route state = record {
  current_node = some state;
  next_task = none;
  owner_role = none;
  blockers = [];
  terminal = true;
}

abbrev blocked_route : Manifest → Text → WorkflowRoute
blocked_route m state = record {
  current_node = some state;
  next_task = none;
  owner_role = blocked_owner m;
  blockers = state ∷ [];
  terminal = false;
}

abbrev pub state_in : Option Text → List Text → Bool
state_in none ts = false
state_in (some t) ts = includes t ts

unfoldable pub route : Manifest → State → Result RouteError WorkflowRoute
unfolding route_from visit
route m s =
    let state = or_else s.state [] in
    if state_in s.state m.terminal_states
    then ok (terminal_route state)
    else if state_in s.state m.blocked_states
    then ok (blocked_route m state)
    else do assert_no_multiple_eligible_edges m.edges s; ok (route_from m s true m.nodes)
