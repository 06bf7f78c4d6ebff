-- ===== src/Kernel/Workflow/Route/Laws.antt =====
-- What a route that proposes a task has established.
use apex_vnext.Common.{
  ◌≡◌, ◌≢◌, refl, ap, Bool, true, false, List, [], ◌∷◌, Option, none, some, ok, arith, inl, inr,
  All, includes, ◌↔◌, filter, not, Bool-cases, Option-cases, length, map, find, ◌∙◌, ◌≤◌,
}
use mathlib.Core.List.{Memᴰ}
use apex_vnext.Kernel.Canonical.{Text, units, text_Eq, text_eq_iff}
use apex_vnext.Kernel.Workflow.{Node, Manifest, State, evaluate_condition, completed_of}
use apex_vnext.Kernel.Workflow.Route.{
  WorkflowRoute, task_route, is_rejected_gate, dependency_satisfied, gate_satisfied, root_of,
  is_skipped, blockers_of, visit, visit_blocked, route_from, route, is_state, state_in,
}

-- A node that may be worked on now.
pub record IsEligible (s : State) (n : Node) : Type 0 where
  pub live : n.kind ≢ units "terminal"
  pub pending : includes n.id (completed_of s) ≡ false
  pub active : evaluate_condition n.condition s ≡ true
  pub satisfied : All (λ d. dependency_satisfied d s ≡ true) n.source_dependencies

none_filtered :
    (p : Text → Bool) (ds : List Text)
    → length (filter (λ d. not (p d)) ds) ≤ 0
    → All (λ d. p d ≡ true) ds
none_filtered p [] h = tt
none_filtered p (d ∷ ds) h = ground (arith, none_filtered p ds)

visit_blocked-next :
    (m : Manifest) (s : State) (b : Bool) (n : Node) (bs : List Text) (o : Option Text)
    (r : WorkflowRoute)
    → visit_blocked m s b n bs o ≡ some r
    → r.next_task ≡ none
unfolding visit_blocked
visit_blocked-next m s b n bs none r h = ground arith
visit_blocked-next m s b n bs (some root) r h = ground arith

visit-next :
    (m : Manifest) (s : State) (b : Bool) (n : Node) (r : WorkflowRoute) (id : Text)
    → visit m s b n ≡ some r
    → r.next_task ≡ some id
    → (r ≡ task_route n) × (length (blockers_of n s) ≤ 0)
unfolding visit
visit-next m s b n r id h e = ground (
  arith,
  visit_blocked-next m s b n (blockers_of n s)
      (find (is_rejected_gate s) (map root_of (blockers_of n s))) r,
)

not_skipped :
    (n : Node) (s : State) → is_skipped n s ≡ false → length (blockers_of n s) ≤ 0 → IsEligible s n
unfolding is_skipped blockers_of
not_skipped n s h none_left = record {
  live = λ e. ground (arith, text_eq_iff n.kind (units "terminal"));
  pending = ground arith;
  active = ground arith;
  satisfied = none_filtered (λ d. dependency_satisfied d s) n.source_dependencies none_left;
}

-- The node that a route proposes as the next task, with the nodes before it.
pub record Proposed (m : Manifest) (s : State) (r : WorkflowRoute) (ns : List Node) : Type 0 where
  pub node : Node
  pub listed : Memᴰ node ns
  pub eligible : IsEligible s node
  pub route : r ≡ task_route node

route_from-Proposed :
    (m : Manifest) (s : State) (b : Bool) (ns : List Node) (r : WorkflowRoute) (id : Text)
    → route_from m s b ns ≡ r
    → r.next_task ≡ some id
    → Proposed m s r ns
unfolding route_from
route_from-Proposed m s b [] r id h e = absurd (ground arith)
route_from-Proposed m s b (n ∷ ns) r id h e = elim (Bool-cases (is_skipped n s)) [
  | inl skip ↦ later (route_from-Proposed m s false ns r id (ground arith) e)
  | inr keep ↦ elim (Option-cases (visit m s b n)) [
    | inl pass ↦ later (route_from-Proposed m s false ns r id (ground arith) e)
    | inr (r', there) ↦
        let same : r' ≡ r = ground arith in
        let (shape, free) = visit-next m s b n r id (there ∙ ap some same) e in
        record {
          node = n;
          listed = Memᴰ.head refl;
          eligible = not_skipped n s keep free;
          route = shape;
        }
  ]
]
  where
    later : Proposed m s r ns → Proposed m s r (n ∷ ns)
    later p = record {
      node = p.node;
      listed = Memᴰ.tail p.listed;
      eligible = p.eligible;
      route = p.route;
    }

-- A route that proposes a next task proposes a node of the manifest that is not terminal, is not
-- completed, whose condition holds and whose dependencies are all satisfied; it names that node and
-- its role, reports no blocker, and the run is in no terminal and no blocked state.
pub route-Proposed :
    (m : Manifest) (s : State) (r : WorkflowRoute) (id : Text)
    → route m s ≡ ok r
    → r.next_task ≡ some id
    → Proposed m s r m.nodes
      × (state_in s.state m.terminal_states ≡ false)
      × (state_in s.state m.blocked_states ≡ false)
unfolding route
route-Proposed m s r id h e =
    (route_from-Proposed m s true m.nodes r id (ground arith) e, ground arith, ground arith)

is_state_iff : (t : Text) (o : Option Text) → (is_state t o ≡ true) ↔ (o ≡ some t)
is_state_iff t none = ground arith
is_state_iff t (some u) = ground (arith, text_eq_iff u t)

All-mem : (P : Text → Type 0) (d : Text) (ds : List Text) → All P ds → Memᴰ d ds → P d
All-mem P d [] ps m = elim m [ ]
All-mem P d (x ∷ ds) (p, ps) (Memᴰ.head e) = rw e p
All-mem P d (x ∷ ds) (p, ps) (Memᴰ.tail m) = All-mem P d ds ps m

gate_4_dependency :
    (s : State)
    → includes (units "gate-4") (completed_of s) ≡ false
    → dependency_satisfied (units "gate-4") s ≡ true
    → gate_satisfied (units "gate-4") s ≡ true
unfolding dependency_satisfied
gate_4_dependency s pending h = ground arith
