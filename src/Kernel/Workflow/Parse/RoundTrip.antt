-- ===== src/Kernel/Workflow/Parse/RoundTrip.antt =====
-- Conditions survive being written as JSON and parsed again.
use apex_vnext.Common.{◌≡◌, ◌≢◌, refl, ap, sym, ◌∙◌, List, [], ◌∷◌, some, ok, arith}
use apex_vnext.Kernel.Canonical.{
  Text, Json, obj, str, field, end, Fields, units, text_Eq, get_field,
}
use apex_vnext.Kernel.Workflow.{
  Condition, Conditions, all_of, none_more, also, equals, in_, exists_, not_,
}
use apex_vnext.Kernel.Workflow.Ambiguity.{condition_json, conditions_json, literal_items}
use apex_vnext.Kernel.Workflow.Parse.{
  items_list, parse_path, parse_condition, parse_conditions, parse_operator,
}

-- Every path of the condition is a text with a character in it, as the parser requires.
abbrev mutual
  pub HasPaths : Condition → Type 0
  HasPaths (all_of cs) = AllHavePaths cs
  HasPaths (equals path literal) = path ≢ []
  HasPaths (in_ path literals) = path ≢ []
  HasPaths (exists_ path) = path ≢ []
  HasPaths (not_ c) = HasPaths c

  pub AllHavePaths : Conditions → Type 0
  AllHavePaths none_more = Unit
  AllHavePaths (also c cs) = HasPaths c × AllHavePaths cs

items_list-literal_items : (xs : List Json) → items_list (literal_items xs) ≡ xs
items_list-literal_items [] = refl
items_list-literal_items (x ∷ xs) = ap (λ ys. x ∷ ys) (items_list-literal_items xs)

parse_path-path :
    (path : Text)
    → path ≢ []
    → parse_path (some (obj (field (units "path") (str path) end))) ≡ ok path
unfolding parse_path get_field
parse_path-path [] h = absurd (h refl)
parse_path-path (c ∷ path) h = refl

condition_json-is_object : (c : Condition) → (fields : Fields) × (condition_json c ≡ obj fields)
unfolding condition_json
condition_json-is_object (all_of cs) = (_, refl)
condition_json-is_object (equals path literal) = (_, refl)
condition_json-is_object (in_ path literals) = (_, refl)
condition_json-is_object (exists_ path) = (_, refl)
condition_json-is_object (not_ c) = (_, refl)

parse_condition-not :
    (v : Json) (fields : Fields) (c : Condition)
    → v ≡ obj fields
    → parse_condition v ≡ ok c
    → parse_condition (obj (field (units "not") v end)) ≡ ok (not_ c)
unfolding parse_condition parse_operator
parse_condition-not v fields c e h =
    let h' : parse_condition (obj fields) ≡ ok c = ap parse_condition (sym e) ∙ h in
    rw e (ground (arith, h'))

mutual
  unfolding condition_json parse_condition parse_operator

  condition_back : (c : Condition) → HasPaths c → parse_condition (condition_json c) ≡ ok c
  condition_back (all_of cs) h = rw (parse_conditions-conditions_json cs h)
  condition_back (equals path literal) h = rw (parse_path-path path h)
  condition_back (in_ path literals) h =
      rw (parse_path-path path h) (rw (items_list-literal_items literals))
  condition_back (exists_ path) h = rw (parse_path-path path h)
  condition_back (not_ c) h =
      let (fields, e) = condition_json-is_object c in
      parse_condition-not (condition_json c) fields c e (condition_back c h)

  parse_conditions-conditions_json :
      (cs : Conditions) → AllHavePaths cs → parse_conditions (conditions_json cs) ≡ ok cs
  parse_conditions-conditions_json none_more h = refl
  parse_conditions-conditions_json (also c cs) (h, hs) =
      rw (condition_back c h) (rw (parse_conditions-conditions_json cs hs))

-- A condition whose paths are not empty is parsed back, unchanged, from the JSON value that stands
-- for it in a manifest.
pub parse_condition-condition_json :
    (c : Condition) → HasPaths c → parse_condition (condition_json c) ≡ ok c
parse_condition-condition_json c h = condition_back c h
