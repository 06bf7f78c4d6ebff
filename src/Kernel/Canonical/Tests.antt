-- ===== src/Kernel/Canonical/Tests.antt =====
-- Texts that `canonicalJson` prints.
use apex_vnext.Common.{String, ◌≡◌, ◌≢◌, refl, true, [], ◌∷◌, ne_of_beq}
use apex_vnext.Kernel.Canonical.{
  Text, text_Eq, Json, null, bool, num, str, arr, obj, nil, cons, end, field, units, canonical_json,
  sha256_json, text_lt,
}
use apex_vnext.Kernel.Canonical.KeyOrder.{objects, swap, canonical_json-same}

abbrev b_then_a : Json
b_then_a = obj (
    field (units "b") (arr (cons null (cons (bool true) nil)))
      (field (units "a") (num (units "1")) end))

abbrev a_then_b : Json
a_then_b = obj (
    field (units "a") (num (units "1"))
      (field (units "b") (arr (cons null (cons (bool true) nil))) end))

sorts_keys : canonical_json b_then_a ≡ units "{\"a\":1,\"b\":[null,true]}"
unfolding canonical_json text_lt
sorts_keys = refl

escapes :
    canonical_json (str (b'"' ∷ 10 ∷ 1 ∷ 0xd800 ∷ 0x41 ∷ [])) ≡ units "\"\\\"\\n\\u0001\\ud800A\""
unfolding canonical_json
escapes = refl

keeps_pairs : canonical_json (str (0xd83d ∷ 0xde00 ∷ [])) ≡ b'"' ∷ 0xd83d ∷ 0xde00 ∷ b'"' ∷ []
unfolding canonical_json
keeps_pairs = refl

abbrev digest_of : Text → String
digest_of t = "digest"

keys_differ : units "b" ≢ units "a"
keys_differ = ne_of_beq (units "b") (units "a") refl

canonical_json-same_example :
    (canonical_json b_then_a ≡ canonical_json a_then_b)
    × ((sha256_text : Text → String)
        → sha256_json sha256_text b_then_a ≡ sha256_json sha256_text a_then_b)
canonical_json-same_example = canonical_json-same (objects (swap keys_differ))
