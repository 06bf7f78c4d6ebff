-- ===== src/Kernel/Registry/Tests.antt =====
-- A registry with one validator, which accepts texts.
use apex_vnext.Common.{String, ◌≡◌, refl, zero, suc, true, false, [], ◌∷◌, some, ok, err}
use apex_vnext.Common.Assoc.{get, put}
use apex_vnext.Kernel.Canonical.{
  Text, text_Eq, units, null, str, obj, arr, nil, cons, field, end, member, canonical_json,
  sha256_json,
}
use apex_vnext.Kernel.Registry.{
  RegisteredValidator, ValidatorHandler, Registry, empty_registry, pure, freshness,
  register_handler, register, validate, has, literal_union_message, already_registered,
  unknown_validator,
}
use apex_vnext.Kernel.Registry.Soundness.{Reach, at_start, registered, validated}

abbrev digest_of : Text → String
digest_of t = "digest"

abbrev none_found : ValidatorHandler
none_found moment v = []

abbrev accepting : RegisteredValidator
accepting = record { handler = none_found; kind = pure }

abbrev one_validator : Registry
one_validator = record { validators = (units "any", accepting) ∷ []; cache = [] }

registers : register_handler (units "any") none_found pure empty_registry ≡ ok one_validator
unfolding register_handler get put
registers = refl

registers_schema : register (units "any") (λ v. []) pure empty_registry ≡ ok one_validator
unfolding register get put
registers_schema = refl

twice :
    register_handler (units "any") none_found pure one_validator
    ≡ err (already_registered (units "any"))
unfolding register_handler get
twice = refl

missing :
    validate digest_of (units "other") null 0 one_validator
    ≡ (err (unknown_validator (units "other")), one_validator)
unfolding validate get
missing = refl

is_there : has (units "any") one_validator ≡ true
unfolding has get
is_there = refl

names_literals :
    literal_union_message (
      obj (
        field
          (units "anyOf")
          (arr (
            cons
              (obj (field (units "const") (str (units "a")) end))
              (cons (obj (field (units "const") (str (units "b")) end)) nil)))
          end))
    ≡ some (units "Expected one of: \"a\", \"b\"")
unfolding literal_union_message member canonical_json
names_literals = refl

abbrev used : Registry
used = (validate digest_of (units "any") null 0 one_validator).1

second_is_cached :
    (validate digest_of (units "any") null 1 used).0
    ≡ ok (record { valid = true; issues = []; cached = true })
unfolding validate get put sha256_json
second_is_cached = refl

abbrev reach_used : Reach digest_of used
reach_used =
    validated (units "any") null 0 (registered (units "any") none_found pure at_start registers)

-- A freshness validator that finds nothing at first, and an issue later.
abbrev late_issue : ValidatorHandler
late_issue zero v = []
late_issue (suc moment) v = record { path = []; message = units "late" } ∷ []

abbrev fresh_registry : Registry
fresh_registry = record empty_registry {
  validators = (units "f", record { handler = late_issue; kind = freshness }) ∷ [];
}

not_kept :
    (validate digest_of
      (units "f")
      null
      1
      (validate digest_of (units "f") null 0 fresh_registry).1).0
    ≡ ok (record {
      valid = false;
      issues = record { path = []; message = units "late" } ∷ [];
      cached = false;
    })
unfolding validate get
not_kept = refl
