-- ===== src/Kernel/Workflow/Parse.antt =====
-- The parsers of workflow-engine.ts: `parseNode`, `parseEdge`, `parseReturnRoute`, `parseCondition`
-- and the readers of single values. A field that an object lacks is `none`.
pub mod RoundTrip
mod Tests
use apex_vnext.Common.{
  ℕ, zero, ◌+◌, ◌-◌, ◌*◌, String, Bool, true, false, ◌&&◌, ◌||◌, List, [], ◌∷◌, ◌++◌, Option, none,
  some, not, ◌==◌, nat_Eq, if◌then◌else◌, includes, Result, ok, err, ◌>>=◌, ◌>>◌, refuse, leb, ltb,
  map_ok, distinct, is_some, find, all,
}
use apex_vnext.Kernel.Canonical.{
  Text, Json, null, bool, num, str, arr, obj, Items, nil, cons, Fields, end, field, units, text_Eq,
  get_field,
}
use apex_vnext.Kernel.Workflow.{
  Condition, Conditions, all_of, none_more, also, equals, in_, exists_, not_, EdgeEvent, completed,
  approved, passed, succeeded, Node, Edge, ReturnRoute,
}
use apex_vnext.Kernel.ValidatorOwnership.{workflow_validator_ownership}

pub data ParseError : Type 0 where
  not_a_string not_an_integer not_an_array : Text → ParseError
  not_an_object : Text → ParseError
  unsupported_operator two_operands : ParseError
  duplicate_validator unsupported_event invalid_reopens : ParseError
  unknown_validator : Text → ParseError

-- `isRecord`.
abbrev pub as_record : Text → Option Json → Result ParseError Fields
as_record what (some (obj fields)) = ok fields
as_record what _ = err (not_an_object what)

pub required_string : Option Json → Text → Result ParseError Text
required_string (some (str (c ∷ s))) what = ok (c ∷ s)
required_string _ what = err (not_a_string what)

is_digit : ℕ → Bool
is_digit c = leb b'0' c && leb c b'9'

abbrev digits_value : ℕ → Text → ℕ
digits_value acc [] = acc
digits_value acc (d ∷ ds) = digits_value (acc * 10 + (d - 48)) ds

-- `Number.isInteger` on the text of a number, below 10 ^ 21. A negative integer is read as 0: both
-- callers refuse it as they refuse 0.
integer_of : Text → Option ℕ
unfolding is_digit
integer_of [] = none
integer_of (c ∷ s) =
    if c == b'-'
    then (if all is_digit s then some 0 else none)
    else if all is_digit (c ∷ s)
    then some (digits_value 0 (c ∷ s))
    else none

abbrev integer_or : Text → Option ℕ → Result ParseError ℕ
integer_or what none = err (not_an_integer what)
integer_or what (some n) = ok n

pub required_integer : Option Json → Text → Result ParseError ℕ
unfolding integer_of
required_integer (some (num t)) what = integer_or what (integer_of t)
required_integer _ what = err (not_an_integer what)

abbrev pub items_list : Items → List Json
items_list nil = []
items_list (cons x xs) = x ∷ items_list xs

unfoldable pub array : Option Json → Text → Result ParseError (List Json)
array (some (arr items)) what = ok (items_list items)
array _ what = err (not_an_array what)

unfoldable pub string_array : Option Json → Text → Result ParseError (List Text)
unfolding array required_string
string_array value what = do
  items ← array value what
  map_ok (λ item. required_string (some item) what) items

pub optional_string_array : Option Json → Text → Result ParseError (List Text)
unfolding string_array
optional_string_array none what = ok []
optional_string_array (some value) what = string_array (some value) what

pub parse_path : Option Json → Result ParseError Text
unfolding required_string
parse_path value = do
  fields ← as_record (units "condition path") value
  required_string (get_field (units "path") fields) (units "condition path")

-- The two operands of `equals` and `in`.
parse_equals : List Json → Result ParseError Condition
unfolding parse_path
parse_equals (p ∷ literal ∷ []) = do ok (equals (← parse_path (some p)) literal)
parse_equals _ = err two_operands

parse_in : List Json → Result ParseError Condition
unfolding parse_path array
parse_in (p ∷ values ∷ []) = do
  path ← parse_path (some p)
  literals ← array (some values) (units "in values")
  ok (in_ path literals)
parse_in _ = err two_operands

parse_exists : Json → Result ParseError Condition
unfolding parse_path
parse_exists v = do ok (exists_ (← parse_path (some v)))

-- The operators, with what `all` and `not` make of the operand.
pub parse_operator :
    Text
    → Json
    → Result ParseError Condition
    → Result ParseError Condition
    → Result ParseError Condition
unfolding parse_equals parse_in parse_exists array
parse_operator key v as_all as_not =
    if key == units "all"
    then as_all
    else if key == units "not"
    then as_not
    else if key == units "exists"
    then parse_exists v
    else if key == units "equals"
    then array (some v) key >>= parse_equals
    else if key == units "in"
    then array (some v) key >>= parse_in
    else err unsupported_operator

abbrev not_condition : Result ParseError Condition
not_condition = err (not_an_object (units "condition"))

mutual
  unfolding parse_operator

  pub parse_condition : Json → Result ParseError Condition
  parse_condition (obj end) = err unsupported_operator
  parse_condition (obj (field key (arr items) end)) =
      parse_operator key (arr items) (parse_conditions items >>= λ cs. ok (all_of cs)) not_condition
  parse_condition (obj (field key v end)) =
      parse_operator key v (err (not_an_array (units "all")))
        (parse_condition v >>= λ c. ok (not_ c))
  parse_condition (obj (field key v (field key' v' fields))) = err unsupported_operator
  parse_condition _ = not_condition

  pub parse_conditions : Items → Result ParseError Conditions
  parse_conditions nil = ok none_more
  parse_conditions (cons x xs) =
      parse_condition x >>= λ c. parse_conditions xs >>= λ cs. ok (also c cs)

pub parse_optional_condition : Option Json → Result ParseError (Option Condition)
unfolding parse_condition
parse_optional_condition none = ok none
parse_optional_condition (some v) = do ok (some (← parse_condition v))

abbrev optional_integer : Option Json → Text → Result ParseError (Option ℕ)
optional_integer none what = ok none
optional_integer (some v) what = required_integer (some v) what >>= λ n. ok (some n)

abbrev first_unknown : List Text → Result ParseError Unit
first_unknown [] = ok tt
first_unknown (v ∷ vs) =
    if is_some (workflow_validator_ownership v) then first_unknown vs else err (unknown_validator v)

-- The error names the node, so a missing id is reported first.
abbrev refuse_duplicates : List Text → Option Json → Result ParseError Unit
refuse_duplicates validators id =
    if distinct validators
    then ok tt
    else required_string id (units "node id") >>= λ _. err duplicate_validator

unfoldable pub parse_node : Json → Result ParseError Node
unfolding parse_optional_condition optional_string_array required_string required_integer
parse_node value = do
  v ← as_record (units "node") (some value)
  condition ← parse_optional_condition (get_field (units "condition") v)
  validators ← optional_string_array (get_field (units "validators") v) (units "validators")
  refuse_duplicates validators (get_field (units "id") v)
  first_unknown validators
  id ← required_string (get_field (units "id") v) (units "node id")
  kind ← required_string (get_field (units "kind") v) (units "node kind")
  owner_role ← required_string (get_field (units "ownerRole") v) (units "ownerRole")
  gate_number ← optional_integer (get_field (units "gateNumber") v) (units "gateNumber")
  source_dependencies ←
      optional_string_array (get_field (units "sourceDependencies") v) (units "sourceDependencies")
  outputs ← optional_string_array (get_field (units "outputs") v) (units "outputs")
  invalidates ← optional_string_array (get_field (units "invalidates") v) (units "invalidates")
  ok (record {
    id = id;
    kind = kind;
    owner_role = owner_role;
    gate_number = gate_number;
    condition = condition;
    source_dependencies = source_dependencies;
    outputs = outputs;
    validators = validators;
    invalidates = invalidates;
  })

event_of : Text → Result ParseError EdgeEvent
event_of t =
    if t == units "completed"
    then ok completed
    else if t == units "approved"
    then ok approved
    else if t == units "passed"
    then ok passed
    else if t == units "succeeded"
    then ok succeeded
    else err unsupported_event

parse_event : Option Json → Result ParseError (Option EdgeEvent)
unfolding event_of required_string
parse_event none = ok none
parse_event (some v) = do
  raw ← required_string (some v) (units "edge event")
  event ← event_of raw
  ok (some event)

abbrev is_true : Option Json → Bool
is_true (some (bool b)) = b
is_true _ = false

unfoldable pub parse_edge : Json → Result ParseError Edge
unfolding parse_optional_condition parse_event required_string
parse_edge value = do
  v ← as_record (units "edge") (some value)
  condition ← parse_optional_condition (get_field (units "condition") v)
  event ← parse_event (get_field (units "event") v)
  from ← required_string (get_field (units "from") v) (units "edge from")
  to ← required_string (get_field (units "to") v) (units "edge to")
  ok (record {
    from = from;
    to = to;
    event = event;
    condition = condition;
    fanout = is_true (get_field (units "fanout") v);
  })

unfoldable pub parse_return_route : Json → Result ParseError ReturnRoute
unfolding parse_optional_condition required_integer required_string
parse_return_route value = do
  v ← as_record (units "return route") (some value)
  condition ← parse_optional_condition (get_field (units "condition") v)
  gate ← required_integer (get_field (units "reopensFromGate") v) (units "reopensFromGate")
  refuse (ltb gate 1 || ltb 4 gate) invalid_reopens
  from ← required_string (get_field (units "from") v) (units "returnRoute from")
  to ← required_string (get_field (units "to") v) (units "returnRoute to")
  reason_code ← required_string (get_field (units "reasonCode") v) (units "returnRoute reasonCode")
  ok (record {
    from = from;
    to = to;
    reason_code = reason_code;
    reopens_from_gate = gate;
    condition = condition;
  })
