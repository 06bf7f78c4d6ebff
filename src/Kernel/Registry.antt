-- ===== src/Kernel/Registry.antt =====
-- packages/kernel/src/validator-registry.ts. A handler is a function of the value and of the moment of
-- its call, a number, since it may read what changes between calls; what TypeBox reports for a schema
-- is a parameter of `register`.
pub mod Soundness
mod Tests
use apex_vnext.Common.{
  ℕ, String, Bool, true, false, List, [], ◌∷◌, ◌++◌, Option, none, some, Result, ok, err, ◌==◌,
  if◌then◌else◌, is_some, or_else, map,
}
use apex_vnext.Common.Assoc.{get, put}
use apex_vnext.Kernel.Canonical.{
  Text, text_Eq, units, Json, obj, arr, Items, nil, cons, Fields, get_field, member, canonical_json,
  sha256_json,
}

pub data ValidatorKind : Type 0 where
  pure freshness authorization : ValidatorKind

pub record ValidationIssue : Type 0 where
  pub path : Text
  pub message : Text

pub record ValidationResult : Type 0 where
  pub valid : Bool
  pub issues : List ValidationIssue
  pub cached : Bool

abbrev pub ValidatorHandler : Type 0
ValidatorHandler = ℕ → Json → List ValidationIssue

pub record RegisteredValidator : Type 0 where
  pub handler : ValidatorHandler
  pub kind : ValidatorKind

pub data RegistryError : Type 0 where
  already_registered unknown_validator : Text → RegistryError

pub record Registry : Type 0 where
  pub validators : List (Text × RegisteredValidator)
  pub cache : List (Text × (Bool × List ValidationIssue))

abbrev pub empty_registry : Registry
empty_registry = record { validators = []; cache = [] }

-- `literalUnionMessage`, for a schema whose literals are no objects: then JSON.stringify prints a
-- literal as canonical JSON does.
abbrev const_texts : Items → Option (List Text)
const_texts nil = some []
const_texts (cons x xs) = with_const (member (units "const") x) (const_texts xs)
  where
    with_const : Option Json → Option (List Text) → Option (List Text)
    with_const (some c) (some ts) = some (canonical_json c ∷ ts)
    with_const _ _ = none

abbrev join_comma : List Text → Text
join_comma [] = []
join_comma (t ∷ []) = t
join_comma (t ∷ u ∷ ts) = t ++ units ", " ++ join_comma (u ∷ ts)

abbrev one_of : Option (List Text) → Option Text
one_of (some (t ∷ ts)) = some (units "Expected one of: " ++ join_comma (t ∷ ts))
one_of _ = none

pub literal_union_message : Json → Option Text
literal_union_message schema = elim (member (units "anyOf") schema) [
  | some (arr options) ↦ one_of (const_texts options)
  | _ ↦ none
]

unfoldable pub register_handler :
    Text → ValidatorHandler → ValidatorKind → Registry → Result RegistryError Registry
register_handler name handler kind r =
    if is_some (get r.validators name)
    then err (already_registered name)
    else ok (record r {
      validators = put r.validators name (record { handler = handler; kind = kind });
    })

-- An error that TypeBox reports: its path, its message and its schema.
pub record SchemaError : Type 0 where
  pub path : Text
  pub message : Text
  pub schema : Json

abbrev issue_of : SchemaError → ValidationIssue
issue_of e = record { path = e.path; message = or_else (literal_union_message e.schema) e.message }

unfoldable pub register :
    Text → (Json → List SchemaError) → ValidatorKind → Registry → Result RegistryError Registry
unfolding register_handler
register name errors kind r =
    register_handler name (λ moment value. map issue_of (errors value)) kind r

pub has : Text → Registry → Bool
has name r = is_some (get r.validators name)

unfoldable pub clear_cache : Registry → Registry
clear_cache r = record r { cache = [] }

abbrev pub is_valid : List ValidationIssue → Bool
is_valid [] = true
is_valid (_ ∷ _) = false

abbrev pub is_pure : ValidatorKind → Bool
is_pure pure = true
is_pure _ = false

module _ (sha256_text : Text → String) where
  abbrev pub cache_key : Text → Json → Text
  cache_key name value = name ++ b':' ∷ units (sha256_json sha256_text value)

  -- The result of a handler, which is kept if there is a key.
  abbrev pub computed : List ValidationIssue → ValidationResult
  computed issues = record { valid = is_valid issues; issues = issues; cached = false }

  -- The answer from the cache, if the validator is pure and the cache has the key; else that of the
  -- handler, which is kept if the validator is pure.
  abbrev pub answer :
      Bool
      → Option (Bool × List ValidationIssue)
      → Text
      → List ValidationIssue
      → Registry
      → Result RegistryError ValidationResult × Registry
  answer false found key fresh r = (ok (computed fresh), r)
  answer true (some (valid, issues)) key fresh r =
      (ok (record { valid = valid; issues = issues; cached = true }), r)
  answer true none key fresh r =
      (ok (computed fresh), record r { cache = put r.cache key (is_valid fresh, fresh) })

  abbrev pub validate_with :
      Option RegisteredValidator
      → Text
      → Json
      → ℕ
      → Registry
      → Result RegistryError ValidationResult × Registry
  validate_with none name value moment r = (err (unknown_validator name), r)
  validate_with (some v) name value moment r =
      let key = cache_key name value in
      answer (is_pure v.kind) (get r.cache key) key (v.handler moment value) r

  unfoldable pub validate :
      Text → Json → ℕ → Registry → Result RegistryError ValidationResult × Registry
  validate name value moment r = validate_with (get r.validators name) name value moment r
