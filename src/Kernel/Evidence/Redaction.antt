-- ===== src/Kernel/Evidence/Redaction.antt =====
-- What redaction leaves of a value.
use apex_vnext.Common.{◌≡◌, refl, Bool, true, false, arith, ◌||◌, Bool-cases, inl, inr}
use apex_vnext.Kernel.Canonical.{
  Json, null, bool, num, str, arr, obj, Items, nil, cons, Fields, end, field,
}
use apex_vnext.Kernel.Evidence.{
  is_secret_key, mark, redact, redact_items, redact_fields, is_redacted, any_redacted_item,
  any_redacted_field,
}

-- At any depth of the value, a key that looks like a secret has the mark for its value.
mutual
  pub IsClean : Json → Type 0
  IsClean (arr items) = AreClean items
  IsClean (obj fields) = CleanFields fields
  IsClean v = Unit

  pub AreClean : Items → Type 0
  AreClean nil = Unit
  AreClean (cons x xs) = IsClean x × AreClean xs

  pub CleanFields : Fields → Type 0
  CleanFields end = Unit
  CleanFields (field key v fields) =
      ((is_secret_key key ≡ true → v ≡ mark) × IsClean v) × CleanFields fields

mutual
  unfolding redact IsClean

  redact-IsClean : (v : Json) → IsClean (redact v)
  redact-IsClean null = tt
  redact-IsClean (bool b) = tt
  redact-IsClean (num n) = tt
  redact-IsClean (str s) = tt
  redact-IsClean (arr items) = redact_items-AreClean items
  redact-IsClean (obj fields) = redact_fields-CleanFields fields

  redact_items-AreClean : (xs : Items) → AreClean (redact_items xs)
  redact_items-AreClean nil = tt
  redact_items-AreClean (cons x xs) = (redact-IsClean x, redact_items-AreClean xs)

  redact_fields-CleanFields : (fs : Fields) → CleanFields (redact_fields fs)
  redact_fields-CleanFields end = tt
  redact_fields-CleanFields (field key v fields) = elim (Bool-cases (is_secret_key key)) [
    | inl secret ↦ rw secret ((λ h. refl, tt), redact_fields-CleanFields fields)
    | inr plain ↦
        rw plain ((λ h. absurd (cc (h, plain)), redact-IsClean v), redact_fields-CleanFields fields)
  ]

mutual
  unfolding redact IsClean

  IsClean-same : (v : Json) → IsClean v → redact v ≡ v
  IsClean-same null h = refl
  IsClean-same (bool b) h = refl
  IsClean-same (num n) h = refl
  IsClean-same (str s) h = refl
  IsClean-same (arr items) h = cc (AreClean-same items h)
  IsClean-same (obj fields) h = cc (CleanFields-same fields h)

  AreClean-same : (xs : Items) → AreClean xs → redact_items xs ≡ xs
  AreClean-same nil h = refl
  AreClean-same (cons x xs) (h, hs) = cc (IsClean-same x h, AreClean-same xs hs)

  CleanFields-same : (fs : Fields) → CleanFields fs → redact_fields fs ≡ fs
  CleanFields-same end h = refl
  CleanFields-same (field key v fields) ((marked, h), hs) = elim (Bool-cases (is_secret_key key)) [
    | inl secret ↦ rw secret (cc (marked secret, CleanFields-same fields hs))
    | inr plain ↦ rw plain (cc (IsClean-same v h, CleanFields-same fields hs))
  ]

or_false : (a b : Bool) → (a || b) ≡ false → (a ≡ false) × (b ≡ false)
or_false a b h = ground arith

mutual
  unfolding redact is_redacted

  unflagged-same : (v : Json) → is_redacted v ≡ false → redact v ≡ v
  unflagged-same null h = refl
  unflagged-same (bool b) h = refl
  unflagged-same (num n) h = refl
  unflagged-same (str s) h = refl
  unflagged-same (arr items) h = cc (unflagged_items-same items h)
  unflagged-same (obj fields) h = cc (unflagged_fields-same fields h)

  unflagged_items-same : (xs : Items) → any_redacted_item xs ≡ false → redact_items xs ≡ xs
  unflagged_items-same nil h = refl
  unflagged_items-same (cons x xs) h =
      let (first, later) = or_false (is_redacted x) (any_redacted_item xs) h in
      cc (unflagged-same x first, unflagged_items-same xs later)

  unflagged_fields-same : (fs : Fields) → any_redacted_field fs ≡ false → redact_fields fs ≡ fs
  unflagged_fields-same end h = refl
  unflagged_fields-same (field key v fields) h =
      let (here, later) =
        or_false (is_secret_key key || is_redacted v) (any_redacted_field fields) h in
      let (plain, value) = or_false (is_secret_key key) (is_redacted v) here in
      rw plain (cc (unflagged-same v value, unflagged_fields-same fields later))

-- After redaction every key that looks like a secret, at any depth, has the mark for its value; a
-- second redaction changes nothing; and a value that is reported as not redacted is the value that was
-- given.
pub redact_lem :
    (v : Json)
    → IsClean (redact v) × (redact (redact v) ≡ redact v) × (is_redacted v ≡ false → redact v ≡ v)
redact_lem v = (redact-IsClean v, IsClean-same (redact v) (redact-IsClean v), unflagged-same v)
