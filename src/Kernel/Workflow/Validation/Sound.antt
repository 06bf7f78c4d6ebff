-- ===== src/Kernel/Workflow/Validation/Sound.antt =====
-- What the validation of a manifest establishes for the engine that runs it.
use apex_vnext.Common.{
  any, ℕ, String, ◌≡◌, refl, true, false, List, [], ◌∷◌, Option, some, Result, ok, err, arith, inl,
  inr, All, includes, map_ok, Result-cases, Bool-cases, >>=-eq-ok, find, ◌∙◌, subst, ◌==◌, not,
  distinct, ◌||◌, refuse,
}
use apex_vnext.Kernel.Canonical.{Text, Json, Fields, text_Eq, text_eq_iff, get_field, units}
use apex_vnext.Kernel.Workflow.Parse.{parse_node, parse_edge, string_array}
use apex_vnext.Kernel.Workflow.{Node, Edge, Manifest, ReturnRoute, State, node_of}
use apex_vnext.Kernel.Workflow.Route.{WorkflowRoute, route, assert_no_multiple_eligible_edges}
use apex_vnext.Kernel.Workflow.Ambiguity.{AmbiguityError, assert_non_ambiguous_outgoing_edges}
use apex_vnext.Kernel.Workflow.Ambiguity.Exclusive.{NoCollision}
use apex_vnext.Kernel.Workflow.Ambiguity.Sound.{validated_edges_exclusive}
use apex_vnext.Kernel.Workflow.Invalidation.{InvalidationEntry, invalidation_plan}
use apex_vnext.Kernel.Workflow.Invalidation.Termination.{
  IsKnown, KnownTargets, invalidation_plan_total,
}
use apex_vnext.Kernel.Workflow.Validation.Acyclic.{is_acyclic}
use apex_vnext.Kernel.Workflow.Validation.{
  states_required, add_gate, check_nodes, ids_of, check_targets, check_invalidates, check_manifest,
  unknown_edge_node, cycle, validate_nodes, validate_edges, validate_states, validate_manifest,
  lift_parse, lift_ambiguity, required_array, required_record, has_all_gates, optional_routes,
  dangling, is_empty,
}

check_nodes-fresh :
    (ns : List Node) (ids : List Text) (gates gs : List ℕ) (x : Text)
    → check_nodes ns ids gates ≡ ok gs
    → includes x ids ≡ true
    → includes x (ids_of ns) ≡ false
unfolding check_nodes
check_nodes-fresh [] ids gates gs x h i = refl
check_nodes-fresh (n ∷ ns) ids gates gs x h i =
    let (_, new, h1) = >>=-eq-ok (refuse (includes n.id ids) _) _ h in
    let (gates', _, h2) = >>=-eq-ok (add_gate n.gate_number gates) _ h1 in
    let rest = check_nodes-fresh ns (n.id ∷ ids) gates' gs x h2 (ground (arith, i)) in
    ground (arith, rest, i, new, text_eq_iff n.id x)

check_nodes-distinct :
    (ns : List Node) (ids : List Text) (gates gs : List ℕ)
    → check_nodes ns ids gates ≡ ok gs
    → distinct (ids_of ns) ≡ true
unfolding check_nodes
check_nodes-distinct [] ids gates gs h = refl
check_nodes-distinct (n ∷ ns) ids gates gs h =
    let (_, new, h1) = >>=-eq-ok (refuse (includes n.id ids) _) _ h in
    let (gates', _, h2) = >>=-eq-ok (add_gate n.gate_number gates) _ h1 in
    ground (
      arith,
      check_nodes-fresh ns (n.id ∷ ids) gates' gs n.id h2 (ground (arith, text_eq_iff n.id n.id)),
      check_nodes-distinct ns (n.id ∷ ids) gates' gs h2,
    )

check_targets-known :
    (ids ts : List Text) → check_targets ids ts ≡ ok tt → All (λ t. includes t ids ≡ true) ts
unfolding check_targets
check_targets-known ids [] h = tt
check_targets-known ids (t ∷ ts) h =
    let (_, there, h1) = >>=-eq-ok (refuse (not (includes t ids)) _) _ h in
    (ground (arith, there), check_targets-known ids ts h1)

found-known :
    (t : Text) (ns : List Node)
    → includes t (ids_of ns) ≡ true
    → (n : Node) × (find (λ (k : Node). k.id == t) ns ≡ some n)
found-known t [] h = absurd (ground arith)
found-known t (n ∷ ns) h = elim (Bool-cases (n.id == t)) [
  | inl y ↦ (n, ground (arith, y))
  | inr no_ ↦ let (k, q) = found-known t ns (ground (arith, no_)) in (k, ground (arith, no_, q))
]

check_invalidates-found :
    (ids : List Text) (ns : List Node) (x : Text) (n : Node)
    → check_invalidates ids ns ≡ ok tt
    → find (λ (k : Node). k.id == x) ns ≡ some n
    → All (λ t. includes t ids ≡ true) n.invalidates
unfolding check_invalidates
check_invalidates-found ids [] x n h f = absurd (ground arith)
check_invalidates-found ids (k ∷ ns) x n h f =
    let (_, first, h1) = >>=-eq-ok (check_targets ids k.invalidates) _ h in
    elim (Bool-cases (k.id == x)) [
      | inl y ↦
          let same : k ≡ n = ground (arith, y, f) in
          subst (λ (j : Node). All (λ t. includes t ids ≡ true) j.invalidates) same
            (check_targets-known ids k.invalidates (first ∙ refl))
      | inr no_ ↦ check_invalidates-found ids ns x n h1 (ground (arith, no_, f))
    ]

All-IsKnown :
    (m : Manifest) (ts : List Text)
    → All (λ t. includes t (ids_of m.nodes) ≡ true) ts
    → All (IsKnown m) ts
unfolding node_of
All-IsKnown m [] h = tt
All-IsKnown m (t ∷ ts) (h, hs) = (found-known t m.nodes h, All-IsKnown m ts hs)

pub KnownTargets-checked :
    (m : Manifest) → check_invalidates (ids_of m.nodes) m.nodes ≡ ok tt → KnownTargets m
unfolding node_of
KnownTargets-checked m h x n found =
    All-IsKnown m n.invalidates (check_invalidates-found (ids_of m.nodes) m.nodes x n h found)

lift_ambiguity-ok :
    (r : Result AmbiguityError Unit) {u : Unit} → lift_ambiguity r ≡ ok u → r ≡ ok tt
lift_ambiguity-ok (ok tt) h = refl
lift_ambiguity-ok (err e) h = cc

validate_nodes-checked :
    (values : List Json) (nodes : List Node)
    → validate_nodes values ≡ ok nodes
    → (distinct (ids_of nodes) ≡ true) × (check_invalidates (ids_of nodes) nodes ≡ ok tt)
unfolding validate_nodes
validate_nodes-checked values nodes h =
    let (ns, _, h1) = >>=-eq-ok (lift_parse (map_ok parse_node values)) _ h in
    let (gates, fresh, h2) = >>=-eq-ok (check_nodes ns [] []) _ h1 in
    let (tt, targets, h3) = >>=-eq-ok (check_invalidates (ids_of ns) ns) _ h2 in
    let (_, _, h4) = >>=-eq-ok (refuse (not (has_all_gates gates)) _) _ h3 in
    let same : ns ≡ nodes = ground (arith, h4) in
    subst (λ k. (distinct (ids_of k) ≡ true) × (check_invalidates (ids_of k) k ≡ ok tt)) same
      (check_nodes-distinct ns [] [] gates fresh, targets)

check_manifest-clear :
    (sha256_text : Text → String) (nodes : List Node) (edges : List Edge)
    (routes : List ReturnRoute)
    → check_manifest sha256_text nodes edges routes ≡ ok tt
    → assert_non_ambiguous_outgoing_edges sha256_text edges ≡ ok tt
unfolding check_manifest
check_manifest-clear sha256_text nodes edges routes h =
    let (_, _, h1) =
      >>=-eq-ok
        (refuse
          (any (λ (e : Edge). dangling (ids_of nodes) e.from e.to) edges
            || any (λ (r : ReturnRoute). dangling (ids_of nodes) r.from r.to) routes)
          unknown_edge_node)
        _ h in
    let (_, _, h2) = >>=-eq-ok (refuse (not (is_acyclic (ids_of nodes) edges)) cycle) _ h1 in
    let (tt, clear, _) =
      >>=-eq-ok (lift_ambiguity (assert_non_ambiguous_outgoing_edges sha256_text edges)) _ h2 in
    lift_ambiguity-ok (assert_non_ambiguous_outgoing_edges sha256_text edges) clear

validate_edges-clear :
    (sha256_text : Text → String) (nodes : List Node) (values : List Json) (routes : Option Json)
    (parts : List Edge × List ReturnRoute)
    → validate_edges sha256_text nodes values routes ≡ ok parts
    → assert_non_ambiguous_outgoing_edges sha256_text parts.0 ≡ ok tt
unfolding validate_edges
validate_edges-clear sha256_text nodes values routes parts h =
    let (edges, _, h1) = >>=-eq-ok (lift_parse (map_ok parse_edge values)) _ h in
    let (rs, _, h2) = >>=-eq-ok (optional_routes routes) _ h1 in
    let (tt, checked, h3) = >>=-eq-ok (check_manifest sha256_text nodes edges rs) _ h2 in
    let same : edges ≡ parts.0 = ground (arith, h3) in
    subst (λ es. assert_non_ambiguous_outgoing_edges sha256_text es ≡ ok tt) same
      (check_manifest-clear sha256_text nodes edges rs checked)

validate_states-parts :
    (v : Fields) (nodes : List Node) (parts : List Edge × List ReturnRoute) (m : Manifest)
    → validate_states v nodes parts ≡ ok m
    → (nodes ≡ m.nodes) × (parts.0 ≡ m.edges)
unfolding validate_states
validate_states-parts v nodes (edges, routes) m h =
    let (ended, _, h1) =
      >>=-eq-ok
        (lift_parse (string_array (get_field (units "terminalStates") v) (units "terminalStates")))
        _ h in
    let (blocked, _, h2) =
      >>=-eq-ok
        (lift_parse (string_array (get_field (units "blockedStates") v) (units "blockedStates"))) _
        h1 in
    let (_, _, h3) = >>=-eq-ok (refuse (is_empty ended || is_empty blocked) states_required) _ h2 in
    (ground (arith, h3), ground (arith, h3))

-- What the checks leave: distinct nodes, known targets, and edges that pass `assertNonAmbiguousOutgoingEdges`.
validate_manifest-checked :
    (sha256_text : Text → String) (value : Json) (m : Manifest)
    → validate_manifest sha256_text value ≡ ok m
    → (distinct (ids_of m.nodes) ≡ true)
      × (check_invalidates (ids_of m.nodes) m.nodes ≡ ok tt)
      × (assert_non_ambiguous_outgoing_edges sha256_text m.edges ≡ ok tt)
unfolding validate_manifest
validate_manifest-checked sha256_text value m h =
    let (v, _, h1) = >>=-eq-ok (required_record value) _ h in
    let (node_values, _, h2) = >>=-eq-ok (required_array (get_field (units "nodes") v)) _ h1 in
    let (edge_values, _, h3) = >>=-eq-ok (required_array (get_field (units "edges") v)) _ h2 in
    let (nodes, checked, h4) = >>=-eq-ok (validate_nodes node_values) _ h3 in
    let (parts, clear, h5) =
      >>=-eq-ok (validate_edges sha256_text nodes edge_values (get_field (units "returnRoutes") v))
        _ h4 in
    let (nodes_eq, edges_eq) = validate_states-parts v nodes parts m h5 in
    let (ids, targets) =
      subst (λ k. (distinct (ids_of k) ≡ true) × (check_invalidates (ids_of k) k ≡ ok tt)) nodes_eq
        (validate_nodes-checked node_values nodes checked) in
    (
      ids,
      targets,
      subst (λ es. assert_non_ambiguous_outgoing_edges sha256_text es ≡ ok tt) edges_eq
          (validate_edges-clear sha256_text nodes edge_values _ parts clear),
    )

-- `route` throws only from `assertNoMultipleEligibleEdges`.
route-returns :
    (m : Manifest) (s : State)
    → assert_no_multiple_eligible_edges m.edges s ≡ ok tt
    → (r : WorkflowRoute) × (route m s ≡ ok r)
unfolding route
route-returns m s h = elim (Result-cases (route m s)) [
  | inl found ↦ found
  | inr (e, q) ↦ absurd (ground (arith, q, h))
]

-- A manifest that `validateWorkflowManifest` returns has distinct nodes; the plan of the
-- invalidations of a change of any of them is returned, so its loop ends and meets no unknown
-- target; and `route` returns a route in every state of every run and never throws. (No two
-- different conditions of its edges share a digest.)
pub validated_manifest_runs :
    (sha256_text : Text → String) (value : Json) (m : Manifest)
    → validate_manifest sha256_text value ≡ ok m
    → NoCollision sha256_text m.edges
    → (distinct (ids_of m.nodes) ≡ true)
      × ((changed reason : Text)
          → IsKnown m changed
          → (plan : List InvalidationEntry) × (invalidation_plan m changed reason ≡ ok plan))
      × ((s : State) → (r : WorkflowRoute) × (route m s ≡ ok r))
validated_manifest_runs sha256_text value m h apart =
    let (ids, targets, clear) = validate_manifest-checked sha256_text value m h in
    let known : KnownTargets m = KnownTargets-checked m targets in
    (
      ids,
      λ changed reason k. (invalidation_plan_total m changed reason known).0 k,
      λ s. route-returns m s (validated_edges_exclusive sha256_text m.edges apart s clear),
    )
