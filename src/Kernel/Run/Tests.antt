-- ===== src/Kernel/Run/Tests.antt =====
-- A mutation of a run with an empty journal, with one digest for every text.
use apex_vnext.Common.{
  String, ◌⊎◌, ◌≡◌, ◌≢◌, refl, true, false, Bool, [], none, some, ok, err, arith, ne_of_beq,
  string_Eq,
}
use apex_vnext.Kernel.Canonical.{Text, Json, null, str, obj, field, end, units, member, sha256_json}
use apex_vnext.Kernel.RunConfig.{parse_run_config, parse_run_config-ok_iff}
use apex_vnext.Kernel.Journal.{Identity, AppendEventInput, replay, head}
use apex_vnext.Kernel.Journal.Replay.{replay-ok_iff, identity_eq_iff}
use apex_vnext.Kernel.Journal.Append.{head-replayed}
use apex_vnext.Kernel.Run.{
  RunDisk, RunError, RunMutation, stale_run_hash, Plan, identity_of, plan, read_raw, recover,
  mutate, invalid_evidence,
}
use apex_vnext.Kernel.Run.Atomic.{event_for, committed, mutate_completes}
use apex_vnext.Kernel.Run.Refused.{stale_hash_refused}

abbrev digest_of : Text → String
digest_of t = "digest"

abbrev any_shape : Json → Bool
any_shape v = true

abbrev run_with : Text → Json
run_with status = obj (
    field (units "projectId") (str (units "p"))
      (field (units "runId") (str (units "r1")) (field (units "status") (str status) end)))

abbrev before : Json
before = run_with (units "draft")

abbrev next_run : Json
next_run = run_with (units "planned")

abbrev disk : RunDisk
disk = record { run_file = before; intent = none; journal = [] }

abbrev identity : Identity
identity = record { project_id = units "p"; run_id = units "r1" }

abbrev event : AppendEventInput
event = record {
  event_id = "e1";
  identity = identity;
  type = "task";
  timestamp = "t1";
  owner_epoch = 1;
  expected_head = none;
  payload = null;
}

abbrev mutation : RunMutation
mutation = record {
  expected_run_hash = "digest";
  expected_journal_head = some none;
  event = event;
  event_payload = end;
  update = λ run. next_run;
  validate = λ run. true;
}

abbrev planned : Plan
planned = record { current = before; journal_head = none; next = next_run }

parses : parse_run_config any_shape before ≡ ok before
unfolding member
parses = (parse_run_config-ok_iff any_shape before before).1 (refl, refl, tt)

unbound_replays : replay digest_of none [] ≡ ok []
unbound_replays = (replay-ok_iff digest_of none [] []).1 (refl, tt)

same_identity : identity ≡ identity_of before
unfolding identity_of member
same_identity = refl

head_is_none : head digest_of (some (identity_of before)) [] ≡ ok none
head_is_none =
    head-replayed digest_of (some (identity_of before)) [] []
      ((replay-ok_iff digest_of (some (identity_of before)) [] []).1 (refl, tt))

plans : plan digest_of any_shape mutation disk ≡ ok planned
unfolding plan read_raw sha256_json identity_of member
plans = ground (
  arith,
  parses,
  head_is_none,
  (identity_eq_iff (identity_of next_run) (identity_of before)).1 refl,
)

mutate_completes_example : mutate digest_of none any_shape mutation disk ≡ (
  ok (record {
    run = next_run;
    run_hash = sha256_json digest_of next_run;
    event_hash = (event_for digest_of any_shape mutation disk []).hash;
  }),
  committed digest_of any_shape mutation disk [],
)
mutate_completes_example =
    mutate_completes digest_of any_shape mutation disk [] planned refl unbound_replays tt
      same_identity (omega arith) (omega arith) plans

abbrev strict_mutation : RunMutation
strict_mutation = record mutation { validate = λ run. false }

abbrev stale_mutation : RunMutation
stale_mutation = record mutation { expected_run_hash = "old" }

strict_refused : plan digest_of any_shape strict_mutation disk ≡ err invalid_evidence
unfolding plan read_raw sha256_json identity_of member
strict_refused = ground (
  arith,
  parses,
  head_is_none,
  (identity_eq_iff (identity_of next_run) (identity_of before)).1 refl,
)

old_hash : "old" ≢ sha256_json digest_of (recover digest_of disk).1.run_file
unfolding sha256_json recover
old_hash = ne_of_beq "old" "digest" refl

stale_hash_refused_example :
    (x : RunError) × (mutate digest_of none any_shape stale_mutation disk
      ≡ (err x, (recover digest_of disk).1))
    × (((recover digest_of disk).0 ≡ err x)
        ⊎ ((read_raw any_shape (recover digest_of disk).1 ≡ err x)
            ⊎ (x
                ≡ stale_run_hash "old"
                    (sha256_json digest_of (recover digest_of disk).1.run_file))))
stale_hash_refused_example =
    stale_hash_refused digest_of any_shape none stale_mutation disk old_hash
