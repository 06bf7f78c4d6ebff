-- ===== src/Kernel/Workflow/Ambiguity.antt =====
-- `assertNonAmbiguousOutgoingEdges`, which the validation of a manifest ends with, and conditions as
-- the values whose digests it compares.
pub mod Exclusive
pub mod Sound
mod Tests
use apex_vnext.Common.{
  ℕ, String, Bool, true, false, ◌&&◌, ◌||◌, List, [], ◌∷◌, Option, none, some, not, ◌==◌, nat_Eq,
  string_Eq, if◌then◌else◌, includes, Result, ok, err, is_some, find, leb, length,
}
use apex_vnext.Kernel.Canonical.{
  Text, Json, str, arr, obj, Items, nil, cons, end, field, units, text_Eq, sha256_json,
}
use apex_vnext.Kernel.Workflow.{
  Condition, Conditions, all_of, none_more, also, equals, in_, exists_, not_, Edge,
}
use apex_vnext.Kernel.Workflow.Route.{edges_from}

abbrev path_json : Text → Json
path_json path = obj (field (units "path") (str path) end)

abbrev pub literal_items : List Json → Items
literal_items [] = nil
literal_items (x ∷ xs) = cons x (literal_items xs)

unfoldable mutual
  pub condition_json : Condition → Json
  condition_json (all_of cs) = obj (field (units "all") (arr (conditions_json cs)) end)
  condition_json (equals path literal) =
      obj (field (units "equals") (arr (cons (path_json path) (cons literal nil))) end)
  condition_json (in_ path literals) = obj (
      field (units "in") (arr (cons (path_json path) (cons (arr (literal_items literals)) nil)))
        end)
  condition_json (exists_ path) = obj (field (units "exists") (path_json path) end)
  condition_json (not_ c) = obj (field (units "not") (condition_json c) end)

  pub conditions_json : Conditions → Items
  conditions_json none_more = nil
  conditions_json (also c cs) = cons (condition_json c) (conditions_json cs)

-- The condition under a negation.
abbrev pub negated : Condition → Option Condition
negated (not_ c) = some c
negated _ = none

-- The path and the literal of an `equals` condition.
abbrev pub equality_of : Option Condition → Option (Text × Json)
equality_of (some (equals path literal)) = some (path, literal)
equality_of _ = none

abbrev pub same_path : Option Text → Text → Bool
same_path none path = true
same_path (some shared) path = shared == path

pub data AmbiguityError : Type 0 where
  ambiguous_edges : Text → AmbiguityError

abbrev pub refuse_ambiguous : Option Edge → Result AmbiguityError Unit
refuse_ambiguous none = ok tt
refuse_ambiguous (some e) = err (ambiguous_edges e.from)

module _ (sha256_text : Text → String) where
  abbrev pub digest : Condition → String
  digest c = sha256_json sha256_text (condition_json c)

  -- `"not" in first && sha256Json(first.not) === sha256Json(second)`.
  pub negates : Option Condition → Condition → Bool
  negates none second = false
  negates (some body) second = digest body == digest second

  pub is_complementary_pair : Option Condition → Option Condition → Bool
  unfolding negates
  is_complementary_pair none second = false
  is_complementary_pair (some first) none = false
  is_complementary_pair (some first) (some second) =
      negates (negated first) second || negates (negated second) first

  pub partition_from : Option Text → List String → List Edge → Bool
  partition_from shared seen [] = is_some shared
  partition_from shared seen (e ∷ es) = elim (equality_of e.condition) [
    | none ↦ false
    | some (path, literal) ↦
        let value_digest = sha256_json sha256_text literal in
        let rest = partition_from (some path) (value_digest ∷ seen) es in
        if same_path shared path && not (includes value_digest seen) then rest else false
  ]

  pub is_disjoint_equals_partition : List Edge → Bool
  unfolding partition_from
  is_disjoint_equals_partition outgoing = partition_from none [] outgoing

  pub is_complementary : List Edge → Bool
  unfolding is_complementary_pair
  is_complementary (e ∷ f ∷ []) = is_complementary_pair e.condition f.condition
  is_complementary _ = false

  pub is_ambiguous : List Edge → Edge → Bool
  unfolding is_complementary is_disjoint_equals_partition edges_from
  is_ambiguous es e =
      let outgoing = edges_from e.from es in
      not e.fanout
      && (leb 2 (length outgoing)
          && (not (is_complementary outgoing) && not (is_disjoint_equals_partition outgoing)))

  unfoldable pub assert_non_ambiguous_outgoing_edges : List Edge → Result AmbiguityError Unit
  unfolding is_ambiguous
  assert_non_ambiguous_outgoing_edges es = refuse_ambiguous (find (is_ambiguous es) es)
