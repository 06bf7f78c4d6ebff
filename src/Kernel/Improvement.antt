-- ===== src/Kernel/Improvement.antt =====
-- packages/kernel/src/improvement-store.ts: observations, the human decisions on proposals,
-- and what retention removes. The state is the files of the three directories, by their names without
-- `.json`; no result below depends on their order unless two digests collide.
pub mod Steps
pub mod Observing
pub mod Deciding
pub mod Scan
mod Tests
use apex_vnext.Common.{
  ◌≡◌, ◌≤◌, ℕ, ◌+◌, ◌*◌, String, Bool, true, false, ◌||◌, List, [], ◌∷◌, ◌++◌, Option, none, some,
  Result, ok, err, not, ◌==◌, nat_Eq, string_Eq, ltb, leb, if◌then◌else◌, ◌>>=◌, ◌>>◌, refuse, any,
  includes, distinct, map, filter, length, is_some,
}
use apex_vnext.Common.Assoc.{get, put}
use apex_vnext.Kernel.Canonical.Sorting.{sort_texts}
use apex_vnext.Kernel.Canonical.{
  Text, text_Eq, units, text_lt, Json, null, str, arr, obj, Items, nil, cons, Fields, end, field,
  sha256_json,
}
use apex_vnext.Kernel.Objects.{is_hash}
use apex_vnext.Kernel.Tasks.Texts.{trim}

-- `ImprovementPolicyV1`, with what the operations below read of it.
pub record ImprovementPolicy : Type 0 where
  pub allowed_sources : List Text
  pub allowed_categories : List Text
  pub statement_characters : ℕ
  pub evidence_refs : ℕ
  pub observations : ℕ
  pub observation_days : ℕ
  pub decision_days : ℕ
  pub threshold : ℕ
  pub window_days : ℕ
  pub proposal_targets : List Text

pub record ObservationInput : Type 0 where
  pub project_id : Text
  pub run_id : Text
  pub task_id : Option Text
  pub observed_at : Option Text
  pub source : Text
  pub category : Text
  pub severity : Text
  pub statement : Text
  pub evidence_refs : List Text

pub data Disposition : Type 0 where
  active quarantined : Disposition

-- `ImprovementObservationV1`: what it takes from the input, and what it adds.
pub record Observation : Type 0 where
  pub input : ObservationInput
  pub observation_id : String
  pub pattern_key : String
  pub observed_at : Text
  pub statement : Text
  pub evidence_refs : List Text
  pub disposition : Disposition
  pub redaction_count : ℕ

pub data Verdict : Type 0 where
  accepted rejected deferred : Verdict

pub data ProposalStatus : Type 0 where
  pending : ProposalStatus
  decided : Verdict → ProposalStatus

-- `ImprovementProposalV1`, less the title and the summary, which are texts of the other fields.
pub record Proposal : Type 0 where
  pub project_id : Text
  pub proposal_id : String
  pub pattern_key : String
  pub generated_at : Text
  pub target : Text
  pub occurrence_count : ℕ
  pub run_ids : List Text
  pub evidence_refs : List Text
  pub is_high : Bool
  pub status : ProposalStatus

pub record ImprovementDecision : Type 0 where
  pub project_id : Text
  pub proposal_id : String
  pub decided_at : Text
  pub actor : Text
  pub decision : Verdict
  pub rationale : Text
  pub external_ref : Option Text

pub record DecisionInput : Type 0 where
  pub project_id : Text
  pub proposal_id : String
  pub actor : Text
  pub decision : Verdict
  pub rationale : Text
  pub external_ref : Option Text

pub record ImprovementDisk : Type 0 where
  pub observations : List (String × Observation)
  pub proposals : List (String × Proposal)
  pub decisions : List (String × ImprovementDecision)

pub data ImprovementError : Type 0 where
  source_not_allowed category_not_allowed reference_count references_malformed statement_length
        statement_empty timestamp_malformed timestamp_in_future limit_reached invalid_observation
        proposal_not_found already_decided invalid_decision not_a_hash invalid_proposal :
      ImprovementError

-- What is not code of the store: the digest, the replacements of `SECRET_VALUE` and `EMAIL` with their
-- number, the match of a pattern of `INJECTION`, `toLowerCase`, the conversions of times, and the
-- checks of the schemas; `before` is that `localeCompare` is negative.
pub record ImprovementHost : Type 0 where
  pub sha256_text : Text → String
  pub redact_text : Text → Text × ℕ
  pub is_injection : Text → Bool
  pub to_lower : Text → Text
  pub to_iso : ℕ → Text
  pub parse_time : Text → Option ℕ
  pub check_observation : Observation → Bool
  pub check_decision : ImprovementDecision → Bool
  pub check_proposal : Proposal → Bool
  pub before : Text → Text → Bool

abbrev or_null : Option Text → Json
or_null none = null
or_null (some t) = str t

abbrev texts_json : List Text → Items
texts_json [] = nil
texts_json (t ∷ ts) = cons (str t) (texts_json ts)

-- `rm(path, { force: true })`.
unfoldable pub remove_file : {V : Type 0} → String → List (String × V) → List (String × V)
remove_file name files = filter (λ f. not (f.0 == name)) files

abbrev pub values : {V : Type 0} → List (String × V) → List V
values files = map (λ f. f.1) files

-- `withDecisionStatus`.
unfoldable pub with_decision_status : ImprovementDisk → Proposal → Proposal
with_decision_status disk p = elim (get disk.decisions p.proposal_id) [
  | none ↦ p
  | some d ↦ record p { status = decided d.decision }
]

-- `listProposals`.
unfoldable pub list_proposals : ImprovementDisk → Option Text → List Proposal
unfolding with_decision_status
list_proposals disk project =
    map (with_decision_status disk) (select project (values disk.proposals))
  where
    select : Option Text → List Proposal → List Proposal
    select none ps = ps
    select (some p) ps = filter (λ q. q.project_id == p) ps

-- `deleteObservation`.
unfoldable pub delete_observation :
    ImprovementDisk → String → Result ImprovementError ImprovementDisk
unfolding is_hash
delete_observation disk name = do
  refuse (not (is_hash (units name))) not_a_hash
  ok (record disk { observations = remove_file name disk.observations })

module _ (host : ImprovementHost) where
  open host use {
    sha256_text, redact_text, is_injection, to_lower, to_iso, parse_time, check_observation,
    check_decision,
  }

  -- `sanitizedStatement`: the text and the number of redactions.
  unfoldable pub sanitized_statement : Text → ℕ → Result ImprovementError (Text × ℕ)
  sanitized_statement statement maximum = do
    refuse (statement == [] || ltb maximum (length statement)) statement_length
    refuse (trim (redact_text statement).0 == []) statement_empty
    ok (trim (redact_text statement).0, (redact_text statement).1)

  unfoldable pub check_input : ImprovementPolicy → ObservationInput → Result ImprovementError Unit
  unfolding is_hash
  check_input policy i = do
    refuse (not (includes i.source policy.allowed_sources)) source_not_allowed
    refuse (not (includes i.category policy.allowed_categories)) category_not_allowed
    refuse (ltb (length i.evidence_refs) 1 || ltb policy.evidence_refs (length i.evidence_refs))
        reference_count
    refuse (not (distinct i.evidence_refs) || any (λ r. not (is_hash r)) i.evidence_refs)
        references_malformed

  -- The time of an observation, `first` being the clock if the input has none.
  abbrev pub observed_text : Option Text → ℕ → Text
  observed_text none first = to_iso first
  observed_text (some t) first = t

  -- `now` is the second reading of the clock.
  unfoldable pub check_time : Text → ℕ → Result ImprovementError Unit
  check_time t now = elim (parse_time t) [
    | none ↦ err timestamp_malformed
    | some time ↦ do
      refuse (not (to_iso time == t)) timestamp_malformed
      refuse (ltb now time) timestamp_in_future
  ]

  unfoldable pub observation_id : ObservationInput → Text → String
  observation_id i statement = sha256_json sha256_text (
      obj (
        field (units "projectId") (str i.project_id) (
          field (units "runId") (str i.run_id) (
            field (units "taskId") (or_null i.task_id) (
              field (units "source") (str i.source) (
                field (units "category") (str i.category) (
                  field (units "severity") (str i.severity) (
                    field (units "statement") (str statement) (
                      field (units "evidenceRefs") (arr (texts_json (sort_texts i.evidence_refs)))
                        end)))))))))

  unfoldable pub new_observation : ObservationInput → Text → Text × ℕ → Observation
  new_observation i at redacted = record {
    input = i;
    observation_id = observation_id i redacted.0;
    pattern_key = sha256_json sha256_text (
        obj (
          field (units "category") (str i.category)
            (field (units "statement") (str (to_lower redacted.0)) end)));
    observed_at = at;
    statement = redacted.0;
    evidence_refs = sort_texts i.evidence_refs;
    disposition = if is_injection redacted.0 then quarantined else active;
    redaction_count = redacted.1;
  }

  -- The part of `observe` that reads and writes files; the result has whether the observation was there.
  unfoldable pub store_observation :
      ImprovementPolicy
      → ImprovementDisk
      → Observation
      → Result ImprovementError (Observation × Bool × ImprovementDisk)
  store_observation policy disk o = elim (get disk.observations o.observation_id) [
    | some existing ↦ ok (existing, true, disk)
    | none ↦ do
      refuse (leb policy.observations (length disk.observations)) limit_reached
      refuse (not (check_observation o)) invalid_observation
      ok (o, false, record disk { observations = put disk.observations o.observation_id o })
  ]

  unfoldable pub observe :
      ImprovementPolicy
      → ImprovementDisk
      → ObservationInput
      → ℕ
      → ℕ
      → Result ImprovementError (Observation × Bool × ImprovementDisk)
  observe policy disk i first now = do
    check_input policy i
    redacted ← sanitized_statement i.statement policy.statement_characters
    check_time (observed_text i.observed_at first) now
    store_observation policy disk (new_observation i (observed_text i.observed_at first) redacted)

  -- `decide`. A proposal whose identifier has a decision file is not decided again.
  abbrev pub new_decision : DecisionInput → ℕ → ImprovementDecision
  new_decision i now = record {
    project_id = i.project_id;
    proposal_id = i.proposal_id;
    decided_at = to_iso now;
    actor = i.actor;
    decision = i.decision;
    rationale = i.rationale;
    external_ref = i.external_ref;
  }

  abbrev is_proposal_of : Text → Option Proposal → Bool
  is_proposal_of project none = false
  is_proposal_of project (some p) = p.project_id == project

  unfoldable pub decide :
      ImprovementDisk
      → DecisionInput
      → ℕ
      → Result ImprovementError (ImprovementDecision × ImprovementDisk)
  decide disk i now = do
    refuse (not (is_proposal_of i.project_id (get disk.proposals i.proposal_id))) proposal_not_found
    refuse (is_some (get disk.decisions i.proposal_id)) already_decided
    refuse (not (check_decision (new_decision i now))) invalid_decision
    ok (
      new_decision i now,
      record disk { decisions = put disk.decisions i.proposal_id (new_decision i now) },
    )

  -- A date that is no date is not before any other.
  abbrev pub is_expired : ℕ → ℕ → Text → Bool
  is_expired days now at = elim (parse_time at) [
    | none ↦ false
    | some time ↦ ltb (time + days * 86400000) now
  ]

  -- The loop of `prune` over decisions, with the files that are left and the number of those removed.
  unfoldable pub prune_decisions :
      ℕ
      → ℕ
      → List ImprovementDecision
      → List (String × ImprovementDecision)
      → List (String × ImprovementDecision) × ℕ
  prune_decisions days now [] files = (files, 0)
  prune_decisions days now (d ∷ ds) files =
      let kept = prune_decisions days now ds files in
      let removed = prune_decisions days now ds (remove_file d.proposal_id files) in
      if is_expired days now d.decided_at then (removed.0, removed.1 + 1) else kept

  -- The loop over observations, which a name that is no digest stops.
  unfoldable pub prune_observations :
      ℕ → ℕ → List Observation → ImprovementDisk → Result ImprovementError (ImprovementDisk × ℕ)
  prune_observations days now [] disk = ok (disk, 0)
  prune_observations days now (o ∷ os) disk =
      let kept = prune_observations days now os disk in
      let removed = do
        left ← delete_observation disk o.observation_id
        rest ← prune_observations days now os left
        ok (rest.0, rest.1 + 1)
      in if is_expired days now o.observed_at then removed else kept

  unfoldable pub prune :
      ImprovementPolicy → ImprovementDisk → ℕ → Result ImprovementError (ImprovementDisk × ℕ × ℕ)
  prune policy disk now = do
    swept ← prune_observations policy.observation_days now (values disk.observations) disk
    let decided =
        prune_decisions policy.decision_days now (values swept.0.decisions) swept.0.decisions
    ok (record swept.0 { decisions = decided.0 }, swept.1, decided.1)
