-- ===== src/Kernel/Workflow.antt =====
-- packages/kernel/src/workflow-engine.ts: the manifest, the state that it is evaluated in, and
-- conditions. The engine's `route`, its invalidation plan and the validation of a manifest are in
-- the child modules.
pub mod Route
pub mod Invalidation
pub mod Parse
pub mod Validation
pub mod Ambiguity
mod Sample
use apex_vnext.Common.{
  ℕ, ◌+◌, String, Bool, true, false, ◌&&◌, ◌||◌, List, [], ◌∷◌, ◌++◌, Option, none, some, not, ◌==◌,
  nat_Eq, if◌then◌else◌, is_some, find, any, or_else,
}
use mathlib.Core.Option
use apex_vnext.Kernel.Canonical.{
  Text, Json, null, bool, num, str, arr, obj, Items, nil, cons, Fields, end, field, units, text_Eq,
  text_eq, member,
}

mutual
  pub data Condition : Type 0 where
    all_of : Conditions → Condition
    equals : Text → Json → Condition
    in_ : Text → List Json → Condition
    exists_ : Text → Condition
    not_ : Condition → Condition

  pub data Conditions : Type 0 where
    none_more : Conditions
    also : Condition → Conditions → Conditions

pub data EdgeEvent : Type 0 where
  completed approved passed succeeded : EdgeEvent

pub record Node : Type 0 where
  pub id : Text
  pub kind : Text
  pub owner_role : Text
  pub gate_number : Option ℕ
  pub condition : Option Condition
  pub source_dependencies : List Text
  pub outputs : List Text
  pub validators : List Text
  pub invalidates : List Text

pub record Edge : Type 0 where
  pub from : Text
  pub to : Text
  pub event : Option EdgeEvent
  pub condition : Option Condition
  pub fanout : Bool

pub record ReturnRoute : Type 0 where
  pub from : Text
  pub to : Text
  pub reason_code : Text
  pub reopens_from_gate : ℕ
  pub condition : Option Condition

pub record Manifest : Type 0 where
  pub nodes : List Node
  pub edges : List Edge
  pub return_routes : List ReturnRoute
  pub terminal_states : List Text
  pub blocked_states : List Text

pub record State : Type 0 where
  pub run : Json
  pub artifacts : Json
  pub completed_nodes : Option (List Text)
  pub gate_states : Option (List (Text × Text))
  pub state : Option Text

-- `path.split(".")`.
split_from : Text → Text → List Text
split_from part [] = part ∷ []
split_from part (c ∷ s) =
    let next = split_from [] s in
    let longer = split_from (part ++ c ∷ []) s in if c == b'.' then part ∷ next else longer

pub split_dots : Text → List Text
unfolding split_from
split_dots path = split_from [] path

abbrev then_member : Text → Option Json → Option Json
then_member key none = none
then_member key (some v) = member key v

-- `getPath`; `undefined` is `none`.
follow : Option Json → List Text → Option Json
follow v [] = v
follow v (key ∷ keys) = follow (then_member key v) keys

pub get_path : Json → Text → Option Json
unfolding follow split_dots
get_path value path = follow (some value) (split_dots path)

abbrev text_items : List Text → Items
text_items [] = nil
text_items (t ∷ ts) = cons (str t) (text_items ts)

abbrev text_fields : List (Text × Text) → Fields
text_fields [] = end
text_fields ((k, v) ∷ m) = field k (str v) (text_fields m)

abbrev optional_field : Text → Option Json → Fields → Fields
optional_field key none fields = fields
optional_field key (some v) fields = field key v fields

-- The state as the object that conditions look into.
pub state_json : State → Json
state_json s = obj (
    field (units "run") s.run (
      field (units "artifacts") s.artifacts (
        optional_field (units "completedNodes")
          (Option.map (λ ts. arr (text_items ts)) s.completed_nodes)
          (optional_field (units "gateStates")
            (Option.map (λ gs. obj (text_fields gs)) s.gate_states)
            (optional_field (units "state") (Option.map str s.state) end)))))

-- `state.completedNodes ?? []` and `state.gateStates?.[id]`.
abbrev pub completed_of : State → List Text
completed_of s = or_else s.completed_nodes []

abbrev pub gate_state : State → Text → Option Text
gate_state s id =
    Option.map (λ (g : Text × Text). g.1)
      (find (λ (g : Text × Text). g.0 == id) (or_else s.gate_states []))

-- `a === b` for a value of the state and a literal of the manifest: two objects or arrays are never
-- identical.
abbrev same_bool : Bool → Bool → Bool
same_bool true b = b
same_bool false b = not b

pub strict_eq : Option Json → Json → Bool
strict_eq (some null) null = true
strict_eq (some (bool a)) (bool b) = same_bool a b
strict_eq (some (num a)) (num b) = a == b
strict_eq (some (str a)) (str b) = a == b
strict_eq _ _ = false

pub is_in : Option Json → List Json → Bool
unfolding strict_eq
is_in v [] = false
is_in v (x ∷ xs) = strict_eq v x || is_in v xs

mutual
  unfolding get_path state_json strict_eq is_in

  pub evaluate : Condition → State → Bool
  evaluate (all_of cs) s = evaluate_all cs s
  evaluate (not_ c) s = not (evaluate c s)
  evaluate (exists_ path) s = is_some (get_path (state_json s) path)
  evaluate (equals path literal) s = strict_eq (get_path (state_json s) path) literal
  evaluate (in_ path literals) s = is_in (get_path (state_json s) path) literals

  pub evaluate_all : Conditions → State → Bool
  evaluate_all none_more s = true
  evaluate_all (also c cs) s = evaluate c s && evaluate_all cs s

-- `evaluateCondition`.
pub evaluate_condition : Option Condition → State → Bool
evaluate_condition none s = true
evaluate_condition (some c) s = evaluate c s

-- `this.nodes.get(id)`, where ids are distinct.
pub node_of : Manifest → Text → Option Node
node_of m id = find (λ (n : Node). n.id == id) m.nodes

-- `activeValidatorIds`.
active_from : List Node → State → List Text
active_from [] s = []
active_from (n ∷ ns) s =
    let rest = active_from ns s in
    if evaluate_condition n.condition s then n.validators ++ rest else rest

pub active_validator_ids : Manifest → State → List Text
unfolding active_from
active_validator_ids m s = active_from m.nodes s
