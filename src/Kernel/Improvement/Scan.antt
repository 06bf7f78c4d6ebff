-- ===== src/Kernel/Improvement/Scan.antt =====
-- `scan` of packages/kernel/src/improvement-store.ts: recurrences of an observation in several runs, and a
-- proposal for each.
pub mod Exact
use apex_vnext.Common.{
  ℕ, ◌+◌, ◌*◌, String, Bool, true, false, ◌&&◌, ◌||◌, List, [], ◌∷◌, ◌++◌, Option, none, some,
  Result, ok, err, not, ◌==◌, Eq, nat_Eq, string_Eq, leb, if◌then◌else◌, ◌>>=◌, ◌>>◌, refuse,
  includes, map, filter, length, last?,
}
use apex_vnext.Common.Assoc.{get, put}
use apex_vnext.Kernel.Canonical.Sorting.{sort_texts}
use apex_vnext.Kernel.Canonical.{
  Text, text_Eq, units, text_lt, Json, str, obj, end, field, sha256_json,
}
use apex_vnext.Kernel.Improvement.{
  ImprovementPolicy, Observation, Disposition, active, quarantined, Proposal, pending,
  ImprovementDisk, ImprovementError, invalid_proposal, ImprovementHost, values,
  with_decision_status,
}

-- `ImprovementRecurrenceV1`.
pub record Recurrence : Type 0 where
  pub project_id : Text
  pub pattern_key : String
  pub category : Text
  pub detected_at : Text
  pub first_seen_at : Text
  pub last_seen_at : Text
  pub occurrence_count : ℕ
  pub distinct_run_count : ℕ
  pub run_ids : List Text
  pub observation_ids : List String
  pub evidence_refs : List Text
  pub is_high : Bool

-- `[...new Set(xs)]`.
unfoldable pub unique : {A : Type 0} ⦃e : Eq A⦄ → List A → List A
unique [] = []
unique (x ∷ xs) = x ∷ filter (λ y. not (y == x)) (unique xs)

-- `xs.sort(...)`, which is stable.
unfoldable pub place_by : {A : Type 0} → (A → A → Bool) → A → List A → List A
place_by earlier x [] = x ∷ []
place_by earlier x (y ∷ ys) =
    let later = place_by earlier x ys in if earlier y x then y ∷ later else x ∷ y ∷ ys

unfoldable pub sort_by : {A : Type 0} → (A → A → Bool) → List A → List A
sort_by earlier [] = []
sort_by earlier (x ∷ xs) = place_by earlier x (sort_by earlier xs)

abbrev flat_refs : List Observation → List Text
flat_refs [] = []
flat_refs (o ∷ os) = o.evidence_refs ++ flat_refs os

abbrev is_active : Disposition → Bool
is_active active = true
is_active quarantined = false

-- `targetFor`; `allowed` is not empty in a policy that has been checked.
abbrev preferred : Text → Text
preferred category =
    if category == units "correctness" || category == units "security"
    then units "validator"
    else if category == units "reliability" || category == units "performance"
    then units "architecture"
    else if category == units "usability" || category == units "documentation"
    then units "documentation"
    else units "backlog"

unfoldable pub target_for : Text → List Text → Option Text
target_for category [] = none
target_for category (t ∷ ts) =
    if includes (preferred category) (t ∷ ts) then some (preferred category) else some t

module _ (host : ImprovementHost) where
  open host use {sha256_text, to_iso, parse_time, check_proposal, before}

  -- The observations that a scan counts.
  unfoldable pub is_counted : ImprovementPolicy → Text → ℕ → Observation → Bool
  is_counted policy project now o =
      o.input.project_id == project && is_active o.disposition && elim (parse_time o.observed_at) [
        | none ↦ false
        | some time ↦ leb now (time + policy.window_days * 86400000)
      ]

  unfoldable pub run_ids_of : List Observation → List Text
  run_ids_of items = sort_texts (unique (map (λ o. o.input.run_id) items))

  -- The recurrence of the group `items`, `ordered` being the group by time.
  unfoldable pub recurrence_from :
      ImprovementPolicy
      → Text
      → ℕ
      → String
      → List Observation
      → List Observation
      → Option Recurrence
  recurrence_from policy project now key items [] = none
  recurrence_from policy project now key items (first ∷ ordered) = elim (last? (first ∷ ordered)) [
    | none ↦ none
    | some last ↦ some (record {
      project_id = project;
      pattern_key = key;
      category = first.input.category;
      detected_at = to_iso now;
      first_seen_at = first.observed_at;
      last_seen_at = last.observed_at;
      occurrence_count = length items;
      distinct_run_count = length (run_ids_of items);
      run_ids = run_ids_of items;
      observation_ids =
          sort_by (λ a b. text_lt (units a) (units b))
            (map (λ o. o.observation_id) (first ∷ ordered));
      evidence_refs = sort_texts (unique (flat_refs items));
      is_high = leb (policy.threshold + 2) (length (run_ids_of items));
    })
  ]

  unfoldable pub recurrence_of :
      ImprovementPolicy → Text → ℕ → String → List Observation → Option Recurrence
  recurrence_of policy project now key items =
      if leb policy.threshold (length (run_ids_of items))
      then recurrence_from policy project now key items
          (sort_by (λ a b. before a.observed_at b.observed_at) items)
      else none

  unfoldable pub proposal_id_of : Text → String → Text → String
  proposal_id_of project key target = sha256_json sha256_text (
      obj (
        field (units "projectId") (str project)
          (field (units "patternKey") (str (units key)) (field (units "target") (str target) end))))

  unfoldable pub new_proposal : Recurrence → Text → Proposal
  new_proposal r target = record {
    project_id = r.project_id;
    proposal_id = proposal_id_of r.project_id r.pattern_key target;
    pattern_key = r.pattern_key;
    generated_at = r.detected_at;
    target = target;
    occurrence_count = r.occurrence_count;
    run_ids = r.run_ids;
    evidence_refs = r.evidence_refs;
    is_high = r.is_high;
    status = pending;
  }

  -- The proposal of a recurrence: the one that is there, or a new one.
  unfoldable pub propose :
      ImprovementPolicy
      → ImprovementDisk
      → Recurrence
      → Result ImprovementError (Proposal × ImprovementDisk)
  propose policy disk r = elim (target_for r.category policy.proposal_targets) [
    | none ↦ err invalid_proposal
    | some target ↦ elim (get disk.proposals (new_proposal r target).proposal_id) [
      | some existing ↦ ok (existing, disk)
      | none ↦ do
        refuse (not (check_proposal (new_proposal r target))) invalid_proposal
        ok (
          new_proposal r target,
          record disk {
            proposals =
                put disk.proposals (new_proposal r target).proposal_id (new_proposal r target);
          },
        )
    ]
  ]

  -- The loop over the groups, by their keys.
  unfoldable pub scan_groups :
      ImprovementPolicy
      → Text
      → ℕ
      → List Observation
      → List String
      → ImprovementDisk
      → Result ImprovementError (List Recurrence × List Proposal × ImprovementDisk)
  scan_groups policy project now counted [] disk = ok ([], [], disk)
  scan_groups policy project now counted (key ∷ keys) disk =
      elim (recurrence_of policy project now key (filter (λ o. o.pattern_key == key) counted)) [
        | none ↦ scan_groups policy project now counted keys disk
        | some r ↦ do
          proposed ← propose policy disk r
          rest ← scan_groups policy project now counted keys proposed.1
          ok (r ∷ rest.0, with_decision_status proposed.1 proposed.0 ∷ rest.1, rest.2)
      ]

  unfoldable pub counted_of : ImprovementPolicy → Text → ℕ → ImprovementDisk → List Observation
  counted_of policy project now disk =
      filter (is_counted policy project now) (values disk.observations)

  unfoldable pub scan :
      ImprovementPolicy
      → ImprovementDisk
      → Text
      → ℕ
      → Result ImprovementError (List Recurrence × List Proposal × ImprovementDisk)
  scan policy disk project now =
      scan_groups policy project now (counted_of policy project now disk)
        (sort_by (λ a b. before (units a) (units b))
          (unique (map (λ o. o.pattern_key) (counted_of policy project now disk))))
        disk
