-- ===== src/Kernel/Canonical/KeyOrder.antt =====
-- The canonical text of a value forgets the order of its keys, at every depth.
use apex_vnext.Common.{◌≡◌, ◌≢◌, refl, ap, [], ◌∷◌, ◌++◌, ◌∙◌, String}
use apex_vnext.Kernel.Canonical.{
  Text, Json, arr, obj, Items, nil, cons, Fields, end, field, serialize, serialize_items,
  sort_fields, comma_join, entry_texts, canonical_json, sha256_json,
}
use apex_vnext.Kernel.Canonical.Order.{place_comm}

-- Two values that differ in nothing but the order in which the keys of objects were set.
mutual
  pub data SameValue : Json → Json → Type 0 where
    same : {a : Json} → SameValue a a
    arrays : {xs ys : Items} → SameItems xs ys → SameValue (arr xs) (arr ys)
    objects : {fs gs : Fields} → SameFields fs gs → SameValue (obj fs) (obj gs)

  pub data SameItems : Items → Items → Type 0 where
    no_items : SameItems nil nil
    items :
        {x y : Json} {xs ys : Items}
        → SameValue x y
        → SameItems xs ys
        → SameItems (cons x xs) (cons y ys)

  pub data SameFields : Fields → Fields → Type 0 where
    no_fields : SameFields end end
    fields :
        {k : Text} {x y : Json} {fs gs : Fields}
        → SameValue x y
        → SameFields fs gs
        → SameFields (field k x fs) (field k y gs)
    swap :
        {k j : Text} {x y : Json} {fs : Fields}
        → k ≢ j
        → SameFields (field k x (field j y fs)) (field j y (field k x fs))
    trans : {fs gs hs : Fields} → SameFields fs gs → SameFields gs hs → SameFields fs hs

mutual
  unfolding serialize

  serialize-same : {a b : Json} → SameValue a b → serialize a ≡ serialize b
  serialize-same same = refl
  serialize-same (arrays h) = ap (λ ts. b'[' ∷ comma_join ts ++ b']' ∷ []) (serialize_items-same h)
  serialize-same (objects h) =
      ap (λ es. b'{' ∷ comma_join (entry_texts es) ++ b'}' ∷ []) (sort_fields-same h)

  serialize_items-same : {xs ys : Items} → SameItems xs ys → serialize_items xs ≡ serialize_items ys
  serialize_items-same no_items = refl
  serialize_items-same (items h hs) = cc (serialize-same h, serialize_items-same hs)

  sort_fields-same : {fs gs : Fields} → SameFields fs gs → sort_fields fs ≡ sort_fields gs
  sort_fields-same no_fields = refl
  sort_fields-same (fields h hs) = cc (serialize-same h, sort_fields-same hs)
  sort_fields-same (swap {k} {j} {x} {y} {fs} h) =
      place_comm k j (serialize x) (serialize y) (sort_fields fs) h
  sort_fields-same (trans h hs) = sort_fields-same h ∙ sort_fields-same hs

-- Values that differ in the order of keys alone, at any depth, have one canonical text, and so one
-- SHA-256 digest, whatever the digest function is.
pub canonical_json-same :
    {a b : Json}
    → SameValue a b
    → (canonical_json a ≡ canonical_json b)
      × ((sha256_text : Text → String) → sha256_json sha256_text a ≡ sha256_json sha256_text b)
unfolding sha256_json
canonical_json-same h = (serialize-same h, λ sha256_text. ap sha256_text (serialize-same h))
