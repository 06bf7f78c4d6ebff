-- ===== src/Kernel/Workflow/Validation.antt =====
-- `validateWorkflowManifest`, with `assertAcyclic` and `conditionTrack`. The digest of a condition
-- is the one of Ambiguity.
pub mod Acyclic
pub mod Sound
mod Tests
use apex_vnext.Common.{
  ℕ, zero, suc, ◌+◌, ◌-◌, String, Bool, true, false, ◌&&◌, ◌||◌, List, [], ◌∷◌, ◌++◌, Option, none,
  some, not, ◌==◌, nat_Eq, if◌then◌else◌, includes, Result, ok, err, ◌>>=◌, ◌>>◌, refuse, leb, ltb,
  map_ok, find, map, length, any,
}
use apex_vnext.Kernel.Canonical.{Text, Json, arr, obj, str, Fields, units, text_Eq, get_field}
use apex_vnext.Kernel.Workflow.{
  Condition, Conditions, all_of, none_more, also, equals, in_, exists_, not_, Node, Edge,
  ReturnRoute, Manifest,
}
use apex_vnext.Kernel.Workflow.Parse.{
  ParseError, as_record, array, string_array, parse_node, parse_edge, parse_return_route,
}
use apex_vnext.Kernel.Workflow.Validation.Acyclic.{is_acyclic}
use apex_vnext.Kernel.Workflow.Ambiguity.{AmbiguityError, assert_non_ambiguous_outgoing_edges}

pub data ManifestError : Type 0 where
  parse_failure : ParseError → ManifestError
  nodes_and_edges_required gates_1_to_4_required tracks_required states_required : ManifestError
  duplicate_node : Text → ManifestError
  invalid_gate : ℕ → ManifestError
  unknown_invalidation : Text → ManifestError
  unknown_edge_node cycle : ManifestError
  ambiguous : AmbiguityError → ManifestError

abbrev pub lift_parse : {A : Type 0} → Result ParseError A → Result ManifestError A
lift_parse (ok a) = ok a
lift_parse (err e) = err (parse_failure e)

abbrev pub lift_ambiguity : {A : Type 0} → Result AmbiguityError A → Result ManifestError A
lift_ambiguity (ok a) = ok a
lift_ambiguity (err e) = err (ambiguous e)

-- A failed read of `nodes` or `edges`, and a manifest that is no object, give one error.
abbrev pub required_array : Option Json → Result ManifestError (List Json)
required_array (some v) = elim (array (some v) (units "")) [
  | ok items ↦ ok items
  | err _ ↦ err nodes_and_edges_required
]
required_array none = err nodes_and_edges_required

abbrev pub required_record : Json → Result ManifestError Fields
required_record (obj fields) = ok fields
required_record _ = err nodes_and_edges_required

-- The gate of a node, which is 1 to 4 and not that of an earlier node.
abbrev pub add_gate : Option ℕ → List ℕ → Result ManifestError (List ℕ)
add_gate none gates = ok gates
add_gate (some g) gates =
    if ltb g 1 || (ltb 4 g || includes g gates) then err (invalid_gate g) else ok (g ∷ gates)

-- The first loop, which returns the gates.
pub check_nodes : List Node → List Text → List ℕ → Result ManifestError (List ℕ)
check_nodes [] ids gates = ok gates
check_nodes (n ∷ ns) ids gates = do
  refuse (includes n.id ids) (duplicate_node n.id)
  gates' ← add_gate n.gate_number gates
  check_nodes ns (n.id ∷ ids) gates'

abbrev pub ids_of : List Node → List Text
ids_of = map (λ (n : Node). n.id)

pub check_targets : List Text → List Text → Result ManifestError Unit
check_targets ids [] = ok tt
check_targets ids (t ∷ ts) = do
  refuse (not (includes t ids)) (unknown_invalidation t)
  check_targets ids ts

pub check_invalidates : List Text → List Node → Result ManifestError Unit
unfolding check_targets
check_invalidates ids [] = ok tt
check_invalidates ids (n ∷ ns) = do check_targets ids n.invalidates; check_invalidates ids ns

abbrev pub has_gate : List ℕ → ℕ → Bool
has_gate gates g = includes g gates

abbrev pub has_all_gates : List ℕ → Bool
has_all_gates gates =
    has_gate gates 1 && (has_gate gates 2 && (has_gate gates 3 && has_gate gates 4))

abbrev pub dangling : List Text → Text → Text → Bool
dangling ids from to = not (includes from ids) || not (includes to ids)

-- `conditionTrack`.
mutual
  condition_track : Condition → List Text
  condition_track (equals path (str track)) = if path == units "run.iacTool" then track ∷ [] else []
  condition_track (all_of cs) = conditions_track cs
  condition_track (not_ c) = condition_track c
  condition_track _ = []

  conditions_track : Conditions → List Text
  conditions_track none_more = []
  conditions_track (also c cs) = condition_track c ++ conditions_track cs

abbrev track_of : Option Condition → List Text
track_of none = []
track_of (some c) = condition_track c

tracks : List Node → List Text
unfolding condition_track
tracks [] = []
tracks (n ∷ ns) = track_of n.condition ++ tracks ns

pub has_tracks : List Node → Bool
unfolding tracks
has_tracks ns = includes (units "bicep") (tracks ns) && includes (units "terraform") (tracks ns)

abbrev pub optional_routes : Option Json → Result ManifestError (List ReturnRoute)
optional_routes (some (arr items)) =
    lift_parse (array (some (arr items)) (units "") >>= map_ok parse_return_route)
optional_routes _ = ok []

abbrev pub is_empty : List Text → Bool
is_empty [] = true
is_empty (_ ∷ _) = false

-- The checks of the parsed parts, in the order of the source.
pub check_manifest :
    (Text → String) → List Node → List Edge → List ReturnRoute → Result ManifestError Unit
unfolding has_tracks
check_manifest sha256_text nodes edges routes = do
  refuse
      (any (λ (e : Edge). dangling (ids_of nodes) e.from e.to) edges
        || any (λ (r : ReturnRoute). dangling (ids_of nodes) r.from r.to) routes)
      unknown_edge_node
  refuse (not (is_acyclic (ids_of nodes) edges)) cycle
  lift_ambiguity (assert_non_ambiguous_outgoing_edges sha256_text edges)
  refuse (not (has_tracks nodes)) tracks_required

-- The nodes, after the loops over them.
pub validate_nodes : List Json → Result ManifestError (List Node)
unfolding check_nodes check_invalidates
validate_nodes values = do
  nodes ← lift_parse (map_ok parse_node values)
  gates ← check_nodes nodes [] []
  check_invalidates (ids_of nodes) nodes
  refuse (not (has_all_gates gates)) gates_1_to_4_required
  ok nodes

pub validate_edges :
    (Text → String)
    → List Node
    → List Json
    → Option Json
    → Result ManifestError (List Edge × List ReturnRoute)
unfolding check_manifest
validate_edges sha256_text nodes values routes = do
  edges ← lift_parse (map_ok parse_edge values)
  return_routes ← optional_routes routes
  check_manifest sha256_text nodes edges return_routes
  ok (edges, return_routes)

pub validate_states :
    Fields → List Node → List Edge × List ReturnRoute → Result ManifestError Manifest
validate_states v nodes (edges, return_routes) = do
  terminal_states ←
      lift_parse (string_array (get_field (units "terminalStates") v) (units "terminalStates"))
  blocked_states ←
      lift_parse (string_array (get_field (units "blockedStates") v) (units "blockedStates"))
  refuse (is_empty terminal_states || is_empty blocked_states) states_required
  ok (record {
    nodes = nodes;
    edges = edges;
    return_routes = return_routes;
    terminal_states = terminal_states;
    blocked_states = blocked_states;
  })

pub validate_manifest : (Text → String) → Json → Result ManifestError Manifest
unfolding validate_nodes validate_edges validate_states
validate_manifest sha256_text value = do
  v ← required_record value
  node_values ← required_array (get_field (units "nodes") v)
  edge_values ← required_array (get_field (units "edges") v)
  nodes ← validate_nodes node_values
  parts ← validate_edges sha256_text nodes edge_values (get_field (units "returnRoutes") v)
  validate_states v nodes parts
