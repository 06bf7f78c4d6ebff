-- ===== src/Kernel/Evidence/Acceptance.antt =====
-- What is stored, and what is not.
use apex_vnext.Common.{
  ◌≤◌, ◌≡◌, ◌≢◌, ◌⊎◌, String, some, true, eq_iff, Option-cases, ◌==◌, string_Eq, refl, subst, Bool,
  false, ◌||◌, List, [], ◌∷◌, ◌++◌, ok, arith, Result-cases, map, filter, any, Bool-cases, inl, inr,
}
use apex_vnext.Kernel.Canonical.{Text, Json, canonical_json}
use apex_vnext.Kernel.Evidence.{
  EvidenceValue, json_value, raw_value, redact, is_safe_text, EvidencePolicy, EvidenceKindPolicy,
  EvidenceInput, EvidenceDisk, accepted, EvidenceRetention, HighRisk, high_risk_patterns, Reason,
  high_risk_pattern, rule, prepare_value, original_text, accept, accept_prepared, settle_evidence,
  reasons_of,
}

append-nil : (xs ys : List Reason) → xs ++ ys ≡ [] → (xs ≡ []) × (ys ≡ [])
append-nil [] ys h = (refl, h)
append-nil (x ∷ xs) ys h = absurd (ground (arith, h))

none_matches :
    (p q : HighRisk → Bool) (hs : List HighRisk)
    → map high_risk_pattern (filter (λ h. p h || q h) hs) ≡ []
    → (any p hs ≡ false) × (any q hs ≡ false)
none_matches p q [] e = (refl, refl)
none_matches p q (h ∷ hs) e = elim (Bool-cases (p h || q h)) [
  | inl y ↦ absurd (ground (arith, e, y))
  | inr n ↦
      let rest = none_matches p q hs (ground (arith, e, n)) in
      (ground (arith, n, rest), ground (arith, n, rest))
]

-- The text that stands for a value in the object store: the canonical text of the redacted value, if
-- the value is JSON, and otherwise the safe text as it was given.
abbrev pub IsRedacted : EvidenceInput → Text → Type 0
IsRedacted input text = go input.value
  where
    go : EvidenceValue → Type 0
    go (json_value v) = text ≡ canonical_json (redact v)
    go (raw_value b) =
        ((input.content_type ≡ "application/json")
          × (v : Json) × (b.parsed ≡ some v)
          × (text ≡ canonical_json (redact v)))
        ⊎ ((input.content_type ≢ "application/json") × (is_safe_text b ≡ true) × (text ≡ b.text))

prepared-IsRedacted :
    (kind content_type : String) (value : EvidenceValue) (required : Bool)
    → (prepare_value content_type value).doubts ≡ []
    → IsRedacted
        (record { kind = kind; content_type = content_type; value = value; required = required })
        (prepare_value content_type value).text
unfolding prepare_value
prepared-IsRedacted kind content_type (json_value v) required h = refl
prepared-IsRedacted kind content_type (raw_value b) required h =
    elim (Bool-cases (content_type == "application/json")) [
      | inl is_json ↦ elim (Option-cases b.parsed) [
        | inl none_is ↦ absurd (ground arith)
        | inr (v, there) ↦
            inl (ground (arith, eq_iff content_type "application/json"), v, there, ground arith)
      ]
      | inr other ↦ elim (Bool-cases (is_safe_text b)) [
        | inl safe ↦
            inr (ground (arith, eq_iff content_type "application/json"), safe, ground arith)
        | inr doubtful ↦ absurd (ground arith)
      ]
    ]

module _ (matches : HighRisk → Text → Bool) where
  pub record IsSafe (policy : EvidencePolicy) (input : EvidenceInput) (disk disk' : EvidenceDisk)
      (text : Text) : Type 0 where
    pub allowed :
        (r : EvidenceKindPolicy) × (rule policy input.kind input.content_type ≡ ok r)
        × ((prepare_value input.content_type input.value).size ≤ r.max_bytes)
    pub redacted : IsRedacted input text
    pub original_clear : any (λ h. matches h (original_text input.value)) high_risk_patterns ≡ false
    pub text_clear : any (λ h. matches h text) high_risk_patterns ≡ false
    pub undoubted : (prepare_value input.content_type input.value).doubts ≡ []
    pub stored : disk' ≡ record disk { objects = text ∷ disk.objects }

  settled-IsSafe :
      (policy : EvidencePolicy) (input : EvidenceInput) (disk disk' : EvidenceDisk)
      (r : EvidenceKindPolicy) (kept : EvidenceRetention) (was : Bool) (text : Text)
      (reasons : List Reason)
      → rule policy input.kind input.content_type ≡ ok r
      → (prepare_value input.content_type input.value).size ≤ r.max_bytes
      → reasons_of matches input (prepare_value input.content_type input.value) ≡ reasons
      → settle_evidence matches input r (prepare_value input.content_type input.value) reasons disk
        ≡ (ok (accepted kept was text), disk')
      → IsSafe policy input disk disk' text
  unfolding settle_evidence
  settled-IsSafe policy input disk disk' r kept was text (x ∷ reasons) ruled small listed h =
      absurd (ground (arith, h))
  settled-IsSafe policy input disk disk' r kept was text [] ruled small listed h =
      let p = prepare_value input.content_type input.value in
      let (sure, clear) = append-nil p.doubts _ listed in
      let (one, two) =
        none_matches (λ h. matches h (original_text input.value)) (λ h. matches h p.text)
          high_risk_patterns clear in
      let same : p.text ≡ text = ground (arith, h) in
      record {
        allowed = (r, ruled, small);
        redacted =
            subst (IsRedacted input) same
              (prepared-IsRedacted input.kind input.content_type input.value input.required sure);
        original_clear = one;
        text_clear = subst (λ t. any (λ h. matches h t) high_risk_patterns ≡ false) same two;
        undoubted = sure;
        stored = ground (arith, h);
      }

  -- Evidence that is accepted is allowed by the policy for its kind and content type and fits its
  -- byte budget, and neither what was given nor what is stored matches a pattern of high risk. The
  -- text put into the object store is the canonical text of the redacted value for JSON, and for
  -- other content the text as it was given, which is safe; nothing goes into quarantine.
  pub accepted-IsSafe :
      (policy : EvidencePolicy) (input : EvidenceInput) (disk disk' : EvidenceDisk)
      (kept : EvidenceRetention) (was : Bool) (text : Text)
      → accept matches policy input disk ≡ (ok (accepted kept was text), disk')
      → IsSafe policy input disk disk' text
  unfolding accept accept_prepared
  accepted-IsSafe policy input disk disk' kept was text h =
      elim (Result-cases (rule policy input.kind input.content_type)) [
        | inr (e, q) ↦ absurd (ground (arith, q, h))
        | inl (r, q) ↦
            let p = prepare_value input.content_type input.value in
            let small : p.size ≤ r.max_bytes = ground (arith, q, h) in
            settled-IsSafe policy input disk disk' r kept was text (reasons_of matches input p) q
              small refl (ground (arith, q, h, small))
      ]
