-- ===== src/Kernel/Evidence.antt =====
-- packages/kernel/src/evidence-store.ts: the policy, redaction and acceptance of evidence. The state is
-- what lies in the object store and in quarantine. `matches` decides whether a regular expression of
-- `HIGH_RISK` matches a text.
pub mod Texts
pub mod Redaction
pub mod Acceptance
mod Tests
use apex_vnext.Kernel.Evidence.Texts.{lower, contains, utf8_size}
use apex_vnext.Common.{
  ℕ, ◌+◌, String, Bool, true, false, ◌&&◌, ◌||◌, List, [], ◌∷◌, ◌++◌, Option, none, some, Result,
  ok, err, not, ◌==◌, nat_Eq, string_Eq, ltb, leb, if◌then◌else◌, ◌>>=◌, ◌>>◌, refuse, find, any,
  includes, map, filter,
}
use apex_vnext.Kernel.Canonical.{
  Text, text_Eq, units, Json, null, bool, num, str, arr, obj, Items, nil, cons, Fields, end, field,
  canonical_json,
}

pub data EvidenceRetention : Type 0 where
  immutable project optional : EvidenceRetention

pub record EvidenceKindPolicy : Type 0 where
  pub content_types : List String
  pub max_bytes : ℕ
  pub retention : EvidenceRetention

-- `EvidencePolicyConfig`, whose kinds differ.
abbrev pub EvidencePolicy : Type 0
EvidencePolicy = List (String × EvidenceKindPolicy)

pub data EvidenceError : Type 0 where
  kind_not_allowed content_type_not_allowed invalid_budget exceeds_budget high_risk :
      String → EvidenceError

-- `SECRET_KEY`: a match of one of the words anywhere in the key, in any case.
abbrev secret_words : List Text
secret_words = map units (
    "secret" ∷ "password" ∷ "passphrase" ∷ "token" ∷ "authorization" ∷ "apikey" ∷ "api-key"
    ∷ "api_key" ∷ "privatekey" ∷ "private-key" ∷ "private_key" ∷ "accesskey" ∷ "access-key"
    ∷ "access_key" ∷ "connectionstring" ∷ [])

pub is_secret_key : Text → Bool
unfolding lower contains
is_secret_key key = any (λ word. contains word (map lower key)) secret_words

abbrev pub mark : Json
mark = str (units "[REDACTED]")

-- The value of `redact`.
mutual
  pub redact : Json → Json
  redact (arr items) = arr (redact_items items)
  redact (obj fields) = obj (redact_fields fields)
  redact v = v

  pub redact_items : Items → Items
  redact_items nil = nil
  redact_items (cons x xs) = cons (redact x) (redact_items xs)

  pub redact_fields : Fields → Fields
  redact_fields end = end
  redact_fields (field key v fields) =
      field key (if is_secret_key key then mark else redact v) (redact_fields fields)

-- `redacted` of `redact`.
mutual
  pub is_redacted : Json → Bool
  is_redacted (arr items) = any_redacted_item items
  is_redacted (obj fields) = any_redacted_field fields
  is_redacted v = false

  pub any_redacted_item : Items → Bool
  any_redacted_item nil = false
  any_redacted_item (cons x xs) = is_redacted x || any_redacted_item xs

  pub any_redacted_field : Fields → Bool
  any_redacted_field end = false
  any_redacted_field (field key v fields) =
      (is_secret_key key || is_redacted v) || any_redacted_field fields

-- `EvidencePolicy.rule`.
pub rule : EvidencePolicy → String → String → Result EvidenceError EvidenceKindPolicy
rule policy kind content_type =
    elim (find (λ (k : String × EvidenceKindPolicy). k.0 == kind) policy) [
      | none ↦ err (kind_not_allowed kind)
      | some (_, r) ↦ do
        refuse (not (includes content_type r.content_types)) (content_type_not_allowed kind)
        refuse (ltb r.max_bytes 1) (invalid_budget kind)
        ok r
    ]

-- Bytes: their number, their text in UTF-8, whether that text has these bytes, and what `JSON.parse`
-- makes of it.
pub record RawBytes : Type 0 where
  pub size : ℕ
  pub text : Text
  pub is_utf8 : Bool
  pub parsed : Option Json

pub data EvidenceValue : Type 0 where
  json_value : Json → EvidenceValue
  raw_value : RawBytes → EvidenceValue

pub record EvidenceInput : Type 0 where
  pub kind : String
  pub content_type : String
  pub value : EvidenceValue
  pub required : Bool

-- `isSafeText`.
is_control : ℕ → Bool
is_control c = (leb 1 c && leb c 8) || (c == 11 || (c == 12 || (leb 14 c && leb c 31)))

pub is_safe_text : RawBytes → Bool
unfolding is_control
is_safe_text b = not (includes 0 b.text) && (b.is_utf8 && not (any is_control b.text))

-- `HIGH_RISK`, in its order.
pub data HighRisk : Type 0 where
  private_key_header private_key github_token account_key authorization_header : HighRisk
  bearer_token connection_string named_token : HighRisk

abbrev pub high_risk_patterns : List HighRisk
high_risk_patterns =
    private_key_header ∷ private_key ∷ github_token ∷ account_key ∷ authorization_header
    ∷ bearer_token ∷ connection_string ∷ named_token ∷ []

pub data Reason : Type 0 where
  malformed_json unknown_binary : Reason
  high_risk_pattern : HighRisk → Reason

-- What is stored of a value: its text and size, whether it was redacted, and the reasons for doubt.
pub record Prepared : Type 0 where
  pub text : Text
  pub size : ℕ
  pub was_redacted : Bool
  pub doubts : List Reason

abbrev of_json : Json → Prepared
of_json v =
    let text = canonical_json (redact v) in
    record { text = text; size = utf8_size text; was_redacted = is_redacted v; doubts = [] }

abbrev as_given : RawBytes → List Reason → Prepared
as_given b doubts = record { text = b.text; size = b.size; was_redacted = false; doubts = doubts }

abbrev of_parsed : RawBytes → Option Json → Prepared
of_parsed b none = as_given b (malformed_json ∷ [])
of_parsed b (some v) = of_json v

pub prepare_value : String → EvidenceValue → Prepared
unfolding utf8_size is_safe_text
prepare_value content_type (json_value v) = of_json v
prepare_value content_type (raw_value b) =
    if content_type == "application/json"
    then of_parsed b b.parsed
    else if is_safe_text b
    then as_given b []
    else as_given b (unknown_binary ∷ [])

-- `originalBytes`, as a text.
pub original_text : EvidenceValue → Text
original_text (json_value v) = canonical_json v
original_text (raw_value b) = b.text

pub record EvidenceDisk : Type 0 where
  pub objects : List Text
  pub quarantine : List Text

-- Less the kind and the number of the bytes, and the path in quarantine; the text stands for its hash.
pub data EvidenceAcceptance : Type 0 where
  accepted : EvidenceRetention → Bool → Text → EvidenceAcceptance
  quarantined : EvidenceRetention → Bool → List Reason → EvidenceAcceptance

abbrev is_immutable : EvidenceRetention → Bool
is_immutable immutable = true
is_immutable _ = false

abbrev kept_as : Bool → EvidenceRetention → EvidenceRetention
kept_as true r = immutable
kept_as false r = r

module _ (matches : HighRisk → Text → Bool) where
  abbrev pub reasons_of : EvidenceInput → Prepared → List Reason
  reasons_of input p =
      p.doubts
      ++ map high_risk_pattern (
          filter (λ h. matches h (original_text input.value) || matches h p.text)
            high_risk_patterns)

  settle_evidence :
      EvidenceInput
      → EvidenceKindPolicy
      → Prepared
      → List Reason
      → EvidenceDisk
      → Result EvidenceError EvidenceAcceptance × EvidenceDisk
  settle_evidence input r p [] disk = (
    ok (accepted (kept_as input.required r.retention) p.was_redacted p.text),
    record disk { objects = p.text ∷ disk.objects },
  )
  settle_evidence input r p (reason ∷ reasons) disk =
      if input.required || is_immutable r.retention then (err (high_risk input.kind), disk) else (
        ok (quarantined r.retention p.was_redacted (reason ∷ reasons)),
        record disk { quarantine = p.text ∷ disk.quarantine },
      )

  accept_prepared :
      EvidenceInput
      → EvidenceKindPolicy
      → Prepared
      → EvidenceDisk
      → Result EvidenceError EvidenceAcceptance × EvidenceDisk
  unfolding settle_evidence
  accept_prepared input r p disk =
      if ltb r.max_bytes p.size
      then (err (exceeds_budget input.kind), disk)
      else settle_evidence input r p (reasons_of input p) disk

  pub accept :
      EvidencePolicy
      → EvidenceInput
      → EvidenceDisk
      → Result EvidenceError EvidenceAcceptance × EvidenceDisk
  unfolding accept_prepared
  accept policy input disk = elim (rule policy input.kind input.content_type) [
    | err e ↦ (err e, disk)
    | ok r ↦ accept_prepared input r (prepare_value input.content_type input.value) disk
  ]
