-- ===== src/Kernel/Workflow/Sample.antt =====
-- A small manifest for the tests: a requirement, two tracks behind gate 1, and a deployment behind
-- gate 4.
use apex_vnext.Common.{ℕ, String, false, List, [], ◌∷◌, Option, none, some}
use apex_vnext.Kernel.Canonical.{
  Text, Json, Items, nil, cons, str, num, arr, obj, field, end, Fields, units,
}
use apex_vnext.Kernel.Workflow.{Condition, equals, Node, Edge, Manifest, State}

abbrev pub node : String → String → Option ℕ → Option Condition → List Text → List Text → Node
node id kind gate condition dependencies invalidates = record {
  id = units id;
  kind = units kind;
  owner_role = units "architect";
  gate_number = gate;
  condition = condition;
  source_dependencies = dependencies;
  outputs = [];
  validators = [];
  invalidates = invalidates;
}

abbrev pub track : String → Condition
track name = equals (units "run.iacTool") (str (units name))

abbrev pub requirements : Node
requirements = node "requirements" "task" none none [] (units "gate-1" ∷ [])

abbrev pub gate_1 : Node
gate_1 =
    node "gate-1" "gate" (some 1) none (units "requirements" ∷ [])
      (units "bicep-plan" ∷ units "terraform-plan" ∷ [])

abbrev pub bicep_plan : Node
bicep_plan =
    node "bicep-plan" "task" none (some (track "bicep")) (units "gate-1" ∷ []) (units "deploy" ∷ [])

abbrev pub terraform_plan : Node
terraform_plan =
    node "terraform-plan" "task" none (some (track "terraform")) (units "gate-1" ∷ [])
      (units "deploy" ∷ [])

abbrev pub gate : String → ℕ → Node
gate id n = node id "gate" (some n) none [] []

abbrev pub deploy : Node
deploy = node "deploy" "task" none none (units "gate-4" ∷ []) []

abbrev pub edge : String → String → Option Condition → Edge
edge from to condition = record {
  from = units from;
  to = units to;
  event = none;
  condition = condition;
  fanout = false;
}

abbrev pub manifest : Manifest
manifest = record {
  nodes =
      requirements
      ∷ gate_1
      ∷ bicep_plan
      ∷ terraform_plan
      ∷ gate "gate-2" 2
      ∷ gate "gate-3" 3
      ∷ gate "gate-4" 4
      ∷ deploy
      ∷ [];
  edges = edge "requirements" "gate-1" none ∷ edge "gate-4" "deploy" none ∷ [];
  return_routes = [];
  terminal_states = units "completed" ∷ [];
  blocked_states = units "approval-rejected" ∷ [];
}

-- A state with no artifacts, for a run that uses Bicep.
abbrev pub state_with : List Text → List (Text × Text) → State
state_with completed gates = record {
  run = obj (
      field (units "iacTool") (str (units "bicep"))
        (field (units "purpose") (str (units "lab")) end));
  artifacts = obj end;
  completed_nodes = some completed;
  gate_states = some gates;
  state = none;
}

abbrev text_array : List Text → Json
text_array ts = arr (items_of ts)
  where
    items_of : List Text → Items
    items_of [] = nil
    items_of (t ∷ ts) = cons (str t) (items_of ts)

abbrev track_json : String → Json
track_json name = obj (
    field (units "equals")
      (arr (
        cons (obj (field (units "path") (str (units "run.iacTool")) end))
          (cons (str (units name)) nil)))
      end)

abbrev node_json : String → String → Fields → List Text → List Text → Json
node_json id kind more dependencies invalidates = obj (
    field (units "id") (str (units id)) (
      field (units "kind") (str (units kind)) (
        field (units "ownerRole") (str (units "architect")) (
          field (units "sourceDependencies") (text_array dependencies)
            (field (units "invalidates") (text_array invalidates) more)))))

abbrev number : String → Fields
number n = field (units "gateNumber") (num (units n)) end

abbrev condition : String → Fields
condition name = field (units "condition") (track_json name) end

abbrev edge_json : String → String → Json
edge_json from to =
    obj (field (units "from") (str (units from)) (field (units "to") (str (units to)) end))

-- The JSON of `manifest`.
abbrev pub manifest_json : Json
manifest_json = obj (
    field (units "nodes")
      (arr (
        cons (node_json "requirements" "task" end [] (units "gate-1" ∷ [])) (
          cons
            (node_json "gate-1" "gate" (number "1") (units "requirements" ∷ [])
              (units "bicep-plan" ∷ units "terraform-plan" ∷ []))
            (cons
              (node_json "bicep-plan" "task" (condition "bicep") (units "gate-1" ∷ [])
                (units "deploy" ∷ []))
              (cons
                (node_json "terraform-plan" "task" (condition "terraform") (units "gate-1" ∷ [])
                  (units "deploy" ∷ []))
                (cons (node_json "gate-2" "gate" (number "2") [] []) (
                  cons (node_json "gate-3" "gate" (number "3") [] []) (
                    cons (node_json "gate-4" "gate" (number "4") [] [])
                      (cons (node_json "deploy" "task" end (units "gate-4" ∷ []) []) nil)))))))))
      (field (units "edges")
        (arr (cons (edge_json "requirements" "gate-1") (cons (edge_json "gate-4" "deploy") nil)))
        (field (units "terminalStates") (text_array (units "completed" ∷ []))
          (field (units "blockedStates") (text_array (units "approval-rejected" ∷ [])) end))))
