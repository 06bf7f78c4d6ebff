-- ===== src/Kernel/Improvement/Tests.antt =====
-- The improvement store at concrete inputs.
use apex_vnext.Common.{
  ℕ, ◌≤◌, String, string_Eq, leb, true, false, ◌≡◌, refl, ◌⊎◌, [], ◌∷◌, Option, none, some, ok, err,
  arith,
}
use apex_vnext.Common.Assoc.{get, put}
use apex_vnext.Kernel.Canonical.{Text, units, text_lt, sha256_json}
use apex_vnext.Kernel.Improvement.{
  ImprovementPolicy, ObservationInput, Observation, active, accepted, Proposal, pending, decided,
  DecisionInput, ImprovementDisk, proposal_not_found, already_decided, ImprovementHost,
  sanitized_statement, check_input, check_time, observation_id, new_observation, store_observation,
  observe, decide, new_decision, prune, prune_observations, prune_decisions, remove_file,
  with_decision_status,
}
use apex_vnext.Kernel.Improvement.Steps.{begun, stepped, observes, prunes, resting, onward}
use apex_vnext.Kernel.Canonical.Sorting.{place_text, sort_texts}
use apex_vnext.Kernel.Tasks.Texts.{trim}
use apex_vnext.Kernel.Improvement.Scan.{
  Recurrence, scan, counted_of, is_counted, unique, place_by, sort_by, run_ids_of, recurrence_from,
  recurrence_of, new_proposal, propose, target_for, scan_groups, proposal_id_of,
}
use apex_vnext.Kernel.Improvement.Scan.Exact.{
  scan-exact, first_some, has_pattern, run_count, of_pattern,
}
use apex_vnext.Kernel.Improvement.Observing.{observe_again, observations_limited}
use apex_vnext.Kernel.Improvement.Deciding.{decision_stands}

abbrev parsed : Text → Option ℕ
parsed (t ∷ []) = some t
parsed _ = none

-- Every digest is the same, no text is redacted or an injection, and a time is one code unit.
abbrev host : ImprovementHost
host = record {
  sha256_text = λ t. "0";
  redact_text = λ t. (t, 0);
  is_injection = λ t. false;
  to_lower = λ t. t;
  to_iso = λ t. t ∷ [];
  parse_time = parsed;
  check_observation = λ o. true;
  check_decision = λ d. true;
  check_proposal = λ p. true;
  before = text_lt;
}

abbrev policy : ImprovementPolicy
policy = record {
  allowed_sources = units "task" ∷ [];
  allowed_categories = units "security" ∷ [];
  statement_characters = 8;
  evidence_refs = 2;
  observations = 1;
  observation_days = 1;
  decision_days = 1;
  threshold = 2;
  window_days = 1;
  proposal_targets = units "validator" ∷ [];
}

abbrev reference : Text
reference = units "0123456789abcdef0123456789abcdef0123456789abcdef0123456789abcdef"

abbrev seen : ObservationInput
seen = record {
  project_id = units "p";
  run_id = units "r";
  task_id = none;
  observed_at = none;
  source = units "task";
  category = units "security";
  severity = units "low";
  statement = units " slow ";
  evidence_refs = reference ∷ [];
}

abbrev proposal : Proposal
proposal = record {
  project_id = units "p";
  proposal_id = "x";
  pattern_key = "y";
  generated_at = 1 ∷ [];
  target = units "validator";
  occurrence_count = 2;
  run_ids = [];
  evidence_refs = [];
  is_high = false;
  status = pending;
}

abbrev before : ImprovementDisk
before = record { observations = []; proposals = ("x", proposal) ∷ []; decisions = [] }

abbrev kept : Observation
kept = record {
  input = seen;
  observation_id = "0";
  pattern_key = "0";
  observed_at = 5 ∷ [];
  statement = units "slow";
  evidence_refs = reference ∷ [];
  disposition = active;
  redaction_count = 0;
}

abbrev after : ImprovementDisk
after = record before { observations = ("0", kept) ∷ [] }

first_observed : observe host policy before seen 5 6 ≡ ok (kept, false, after)
unfolding observe check_input sanitized_statement trim check_time store_observation get
    new_observation put observation_id sha256_json sort_texts place_text
first_observed = refl

observe_again_example : observe host policy after seen 9 9 ≡ ok (kept, true, after)
observe_again_example =
    observe_again host (λ t. refl) policy before seen 5 6 9 9 first_observed (omega arith)
      (omega arith)

observations_limited_example : 1 ≤ 1
observations_limited_example =
    observations_limited host policy {disk = after}
      (stepped 6 (begun {disk = before} refl refl) (observes seen 5 first_observed))

abbrev acceptance : DecisionInput
acceptance = record {
  project_id = units "p";
  proposal_id = "x";
  actor = units "a";
  decision = accepted;
  rationale = units "yes";
  external_ref = none;
}

abbrev decided_disk : ImprovementDisk
decided_disk = record before { decisions = ("x", new_decision host acceptance 7) ∷ [] }

first_decided : decide host before acceptance 7 ≡ ok (new_decision host acceptance 7, decided_disk)
unfolding decide put get
first_decided = refl

-- A pruning at the end of the retention.
late_pruned : prune host policy decided_disk 86400007 ≡ ok (decided_disk, 0, 0)
unfolding prune prune_observations prune_decisions
late_pruned = refl

decision_stands_example :
    ((with_decision_status decided_disk proposal).status ≡ decided accepted)
    × ((decide host decided_disk acceptance 9 ≡ err proposal_not_found)
        ⊎ (decide host decided_disk acceptance 9 ≡ err already_decided))
decision_stands_example =
    decision_stands host (λ t. refl) policy acceptance 7 (begun {disk = before} refl refl)
      first_decided (onward 86400007 resting (omega arith) (prunes late_pruned)) proposal refl
      acceptance refl 9

-- One millisecond later the decision is removed, and the proposal is pending again.
abbrev later_disk : ImprovementDisk
later_disk = before

removed_later : prune host policy decided_disk 86400008 ≡ ok (later_disk, 0, 1)
unfolding prune prune_observations prune_decisions remove_file
removed_later = refl

pending_again : with_decision_status later_disk proposal ≡ proposal
unfolding with_decision_status get
pending_again = refl

-- Two runs with the same observation.
abbrev seen_again : Observation
seen_again = record kept {
  input = record seen { run_id = units "s" };
  observed_at = 6 ∷ [];
  observation_id = "1";
}

abbrev two_runs : ImprovementDisk
two_runs = record {
  observations = ("0", kept) ∷ ("1", seen_again) ∷ [];
  proposals = [];
  decisions = [];
}

abbrev recurred : Recurrence
recurred = record {
  project_id = units "p";
  pattern_key = "0";
  category = units "security";
  detected_at = 9 ∷ [];
  first_seen_at = 5 ∷ [];
  last_seen_at = 6 ∷ [];
  occurrence_count = 2;
  distinct_run_count = 2;
  run_ids = units "r" ∷ units "s" ∷ [];
  observation_ids = "0" ∷ "1" ∷ [];
  evidence_refs = reference ∷ [];
  is_high = false;
}

abbrev proposed : Proposal
proposed = record {
  project_id = units "p";
  proposal_id = "0";
  pattern_key = "0";
  generated_at = 9 ∷ [];
  target = units "validator";
  occurrence_count = 2;
  run_ids = units "r" ∷ units "s" ∷ [];
  evidence_refs = reference ∷ [];
  is_high = false;
  status = pending;
}

abbrev scanned : ImprovementDisk
scanned = record two_runs { proposals = ("0", proposed) ∷ [] }

scan_runs : scan host policy two_runs (units "p") 9 ≡ ok (recurred ∷ [], proposed ∷ [], scanned)
unfolding scan scan_groups sort_by unique counted_of is_counted place_by recurrence_of run_ids_of
    sort_texts place_text text_lt recurrence_from propose target_for get with_decision_status put
    sha256_json new_proposal proposal_id_of
scan_runs = refl

scan-exact_example :
    ((k : String)
      → has_pattern k (recurred ∷ [])
        ≡ leb 2 (run_count (of_pattern k (counted_of host policy (units "p") 9 two_runs))))
    × (scanned ≡ record two_runs { proposals = scanned.proposals })
    × ((id : String)
        → get scanned.proposals id
          ≡ first_some (get two_runs.proposals id) (get scanned.proposals id))
scan-exact_example = scan-exact host policy two_runs (units "p") 9 (omega arith) scan_runs
