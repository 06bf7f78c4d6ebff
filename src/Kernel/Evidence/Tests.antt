-- ===== src/Kernel/Evidence/Tests.antt =====
-- Evidence with a secret in it, and what becomes of it.
use apex_vnext.Common.{◌≡◌, refl, Bool, true, false, [], ◌∷◌, none, ok, err}
use apex_vnext.Kernel.Canonical.{
  Text, text_lt, Json, num, str, arr, obj, nil, cons, end, field, units, canonical_json,
}
use apex_vnext.Kernel.Evidence.Texts.{utf8_size}
use apex_vnext.Kernel.Evidence.{
  HighRisk, project, EvidencePolicy, EvidenceInput, json_value, EvidenceDisk, accepted,
  kind_not_allowed, high_risk, redact, is_redacted, is_secret_key, mark, rule, prepare_value,
  original_text, accept, is_safe_text,
}
use apex_vnext.Kernel.Evidence.Redaction.{IsClean, redact_lem}
use apex_vnext.Kernel.Evidence.Acceptance.{IsSafe, accepted-IsSafe}

abbrev with_secret : Json
with_secret = obj (
    field (units "Api_Key") (str (units "xyz")) (
      field (units "items") (arr (cons (obj (field (units "name") (num (units "1")) end)) nil))
        end))

abbrev without_secret : Json
without_secret = obj (
    field (units "Api_Key") mark (
      field (units "items") (arr (cons (obj (field (units "name") (num (units "1")) end)) nil))
        end))

redacts : redact with_secret ≡ without_secret
unfolding redact is_secret_key
redacts = refl

reports : is_redacted with_secret ≡ true
unfolding is_redacted is_secret_key
reports = refl

redact_lem_example :
    IsClean (redact with_secret)
    × (redact (redact with_secret) ≡ redact with_secret)
    × (is_redacted with_secret ≡ false → redact with_secret ≡ with_secret)
redact_lem_example = redact_lem with_secret

counts_bytes : utf8_size (0x41 ∷ 0xe9 ∷ 0x20ac ∷ 0xd83d ∷ 0xde00 ∷ []) ≡ 10
unfolding utf8_size
counts_bytes = refl

no_binary : is_safe_text (record { size = 1; text = 0 ∷ []; is_utf8 = true; parsed = none }) ≡ false
unfolding is_safe_text
no_binary = refl

abbrev policy : EvidencePolicy
policy =
    (
      "log",
      record { content_types = "application/json" ∷ []; max_bytes = 200; retention = project },
    )
    ∷ []

abbrev input : EvidenceInput
input = record {
  kind = "log";
  content_type = "application/json";
  value = json_value with_secret;
  required = false;
}

abbrev disk : EvidenceDisk
disk = record { objects = []; quarantine = [] }

abbrev no_risks : HighRisk → Text → Bool
no_risks h t = false

abbrev all_risks : HighRisk → Text → Bool
all_risks h t = true

abbrev stored_text : Text
stored_text = units "{\"Api_Key\":\"[REDACTED]\",\"items\":[{\"name\":1}]}"

accepts : accept no_risks policy input disk ≡ (
  ok (accepted project true stored_text),
  record { objects = stored_text ∷ []; quarantine = [] },
)
unfolding accept rule prepare_value original_text redact is_redacted is_secret_key canonical_json
    text_lt
accepts = refl

quarantines :
    (accept all_risks policy input disk).1 ≡ record { objects = []; quarantine = stored_text ∷ [] }
unfolding accept rule prepare_value original_text redact is_redacted is_secret_key canonical_json
    text_lt
quarantines = refl

refuses_risk :
    accept all_risks policy (record input { required = true }) disk ≡ (err (high_risk "log"), disk)
unfolding accept rule prepare_value original_text redact is_redacted is_secret_key canonical_json
    text_lt
refuses_risk = refl

unknown_kind :
    accept no_risks policy (record input { kind = "dump" }) disk
    ≡ (err (kind_not_allowed "dump"), disk)
unfolding accept rule
unknown_kind = refl

accepted-IsSafe_example :
    IsSafe no_risks policy input disk
      (record { objects = stored_text ∷ []; quarantine = [] })
      stored_text
accepted-IsSafe_example =
    accepted-IsSafe no_risks policy input disk
      (record { objects = stored_text ∷ []; quarantine = [] }) project true stored_text accepts
