-- ===== src/Kernel/Canonical.antt =====
-- packages/kernel/src/canonical.ts on the type `JsonValue`. A text is the list of its UTF-16 code
-- units. A finite number is carried as the text that `JSON.stringify` prints for it; `undefined`,
-- functions, non-finite numbers, class instances and cyclic values are no `JsonValue`.
pub mod Order
pub mod KeyOrder
pub mod Sorting
mod Tests
use Prim.Native.Nat.{◌/◌, ◌%◌}
use Prim.Native.Char.{code}
use Prim.Native.String
use apex_vnext.Common.{
  ℕ, ◌+◌, ◌-◌, String, Bool, true, false, ◌&&◌, ◌||◌, Eq, ◌≡◌, ◌↔◌, refl, arith, List, [], ◌∷◌,
  ◌++◌, ltb, ◌==◌, nat_Eq, if◌then◌else◌, Option, none, some,
}

abbrev pub Text : Type 0
Text = List ℕ

abbrev pub text_eq : Text → Text → Bool
text_eq [] [] = true
text_eq [] (d ∷ t) = false
text_eq (c ∷ s) [] = false
text_eq (c ∷ s) (d ∷ t) = c == d && text_eq s t

pub text_eq_iff : (s t : Text) → (text_eq s t ≡ true) ↔ (s ≡ t)
text_eq_iff [] [] = (λ h. refl, λ h. refl)
text_eq_iff [] (d ∷ t) = (λ h. cc, λ h. cc)
text_eq_iff (c ∷ s) [] = (λ h. cc, λ h. cc)
text_eq_iff (c ∷ s) (d ∷ t) =
    (λ h. ground (arith, text_eq_iff s t), λ h. ground (arith, text_eq_iff s t))

instance abbrev pub text_Eq : Eq Text
text_Eq = record { beq = text_eq; beq_iff = text_eq_iff }

mutual
  pub data Json : Type 0 where
    null : Json
    bool : Bool → Json
    num : Text → Json
    str : Text → Json
    arr : Items → Json
    obj : Fields → Json

  pub data Items : Type 0 where
    nil : Items
    cons : Json → Items → Items

  -- The own enumerable properties of a plain object, whose keys differ.
  pub data Fields : Type 0 where
    end : Fields
    field : Text → Json → Fields → Fields

-- The code units of a literal: a character beyond the basic plane is a surrogate pair.
abbrev unit_of : ℕ → Text → Text
unit_of c rest =
    if ltb c 0x10000
    then c ∷ rest
    else (0xd800 + (c - 0x10000) / 0x400) ∷ (0xdc00 + (c - 0x10000) % 0x400) ∷ rest

abbrev pub units : String → Text
units String.[] = []
units (String.◌∷◌ c s) = unit_of (code c) (units s)

-- `JSON.stringify` of a text.
hex_digit : ℕ → ℕ
hex_digit n = if ltb n 10 then 48 + n else 87 + n

is_surrogate : ℕ → Bool
is_surrogate c = if ltb c 0xd800 then false else ltb c 0xe000

hex_escape : ℕ → Text → Text
unfolding hex_digit
hex_escape c rest =
    b'\\'
    ∷ b'u'
    ∷ hex_digit (c / 4096)
    ∷ hex_digit (c / 256 % 16)
    ∷ hex_digit (c / 16 % 16)
    ∷ hex_digit (c % 16)
    ∷ rest

escape_unit : ℕ → Text → Text
unfolding hex_escape is_surrogate
escape_unit c rest =
    if c == 8
    then b'\\' ∷ b'b' ∷ rest
    else if c == 9
    then b'\\' ∷ b't' ∷ rest
    else if c == 10
    then b'\\' ∷ b'n' ∷ rest
    else if c == 12
    then b'\\' ∷ b'f' ∷ rest
    else if c == 13
    then b'\\' ∷ b'r' ∷ rest
    else if c == b'"' || c == b'\\'
    then b'\\' ∷ c ∷ rest
    else if ltb c 32
    then hex_escape c rest
    else c ∷ rest

-- A surrogate pair stays, a lone surrogate is escaped.
is_high : ℕ → Bool
is_high c = if ltb c 0xd800 then false else ltb c 0xdc00

is_low : ℕ → Bool
is_low c = if ltb c 0xdc00 then false else ltb c 0xe000

escape : Text → Text
unfolding escape_unit is_high is_low
escape [] = b'"' ∷ []
escape (c ∷ []) = if is_surrogate c then hex_escape c (b'"' ∷ []) else escape_unit c (b'"' ∷ [])
escape (c ∷ d ∷ s) =
    let pair = escape s in
    let single = escape (d ∷ s) in
    elim (is_high c) [
      | true ↦ elim (is_low d) [ true ↦ c ∷ d ∷ pair | false ↦ hex_escape c single ]
      | false ↦ elim (is_low c) [ true ↦ hex_escape c single | false ↦ escape_unit c single ]
    ]

quote : Text → Text
unfolding escape
quote s = b'"' ∷ escape s

-- `Array.prototype.sort` without a comparator compares code units.
unfoldable pub text_lt : Text → Text → Bool
text_lt [] [] = false
text_lt [] (d ∷ t) = true
text_lt (c ∷ s) [] = false
text_lt (c ∷ s) (d ∷ t) =
    let rest = text_lt s t in if ltb c d then true else if ltb d c then false else rest

-- The entries of an object by key; the value of each key is serialized already.
pub place : Text → Text → List (Text × Text) → List (Text × Text)
place key value [] = (key, value) ∷ []
place key value ((k, v) ∷ entries) =
    let later = place key value entries in
    if text_lt key k then (key, value) ∷ (k, v) ∷ entries else (k, v) ∷ later

comma_join : List Text → Text
comma_join [] = []
comma_join (t ∷ []) = t
comma_join (t ∷ u ∷ ts) = t ++ b',' ∷ comma_join (u ∷ ts)

entry_texts : List (Text × Text) → List Text
unfolding quote
entry_texts [] = []
entry_texts ((k, v) ∷ entries) = (quote k ++ b':' ∷ v) ∷ entry_texts entries

abbrev bool_text : Bool → Text
bool_text true = units "true"
bool_text false = units "false"

mutual
  unfolding quote comma_join entry_texts place

  pub serialize : Json → Text
  serialize null = units "null"
  serialize (bool b) = bool_text b
  serialize (num n) = n
  serialize (str s) = quote s
  serialize (arr items) = b'[' ∷ comma_join (serialize_items items) ++ b']' ∷ []
  serialize (obj fields) = b'{' ∷ comma_join (entry_texts (sort_fields fields)) ++ b'}' ∷ []

  pub serialize_items : Items → List Text
  serialize_items nil = []
  serialize_items (cons x items) = serialize x ∷ serialize_items items

  pub sort_fields : Fields → List (Text × Text)
  sort_fields end = []
  sort_fields (field key value fields) = place key (serialize value) (sort_fields fields)

unfoldable pub canonical_json : Json → Text
unfolding serialize
canonical_json value = serialize value

-- `sha256Json`; the digest of a text in UTF-8, in hexadecimal, is Node's.
unfoldable pub sha256_json : (Text → String) → Json → String
unfolding canonical_json
sha256_json sha256_text value = sha256_text (canonical_json value)

-- `object[key]`, and `undefined` for a value that is no object or has no such key.
unfoldable pub get_field : Text → Fields → Option Json
get_field key end = none
get_field key (field k v fields) = if k == key then some v else get_field key fields

unfoldable pub member : Text → Json → Option Json
unfolding get_field
member key (obj fields) = get_field key fields
member key _ = none

-- `{ ...object, key: value }`: a key that is there keeps its place.
pub set_field : Text → Json → Fields → Fields
set_field key value end = field key value end
set_field key value (field k v fields) =
    let rest = set_field key value fields in
    if k == key then field key value fields else field k v rest

pub get_field-set_field_self :
    (key : Text) (value : Json) (fields : Fields)
    → get_field key (set_field key value fields) ≡ some value
unfolding get_field set_field
get_field-set_field_self key value end = ground (arith, text_eq_iff key key)
get_field-set_field_self key value (field k v fields) =
    ground (arith, text_eq_iff key key, get_field-set_field_self key value fields)
