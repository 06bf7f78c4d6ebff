-- ===== src/Kernel/Run.antt =====
-- packages/kernel/src/run-repository.ts: the run file, the transaction intent and the journal of one
-- run, with what a crash leaves of them. Each function ends where the process may stop. The calls
-- run under the mutation lock (directory-lock.ts), which is not modelled here.
pub mod Recovery
pub mod Atomic
pub mod Refused
pub mod WriterLease
mod Tests
use apex_vnext.Common.{
  ℕ, String, Bool, true, false, ◌&&◌, ◌||◌, List, [], ◌∷◌, Option, none, some, Result, ok, err, not,
  ◌==◌, string_Eq, option_Eq, nat_Eq, if◌then◌else◌, refuse, ◌>>=◌, ◌>>◌, find, is_some,
}
use apex_vnext.Kernel.Canonical.{
  Text, Json, str, obj, Fields, end, field, units, text_Eq, member, set_field, sha256_json,
}
use apex_vnext.Kernel.Journal.{
  Identity, Event, AppendEventInput, Directory, JournalError, replay, head, append, identity_eq,
}
use apex_vnext.Kernel.RunConfig.{RunConfigError, is_text, parse_run_config}

pub record TransactionIntent : Type 0 where
  pub event_id : String
  pub before_hash : String
  pub after_hash : String
  pub after : Json

pub record RunDisk : Type 0 where
  pub run_file : Json
  pub intent : Option TransactionIntent
  pub journal : Directory

pub data Stage : Type 0 where
  intent_stage journal_stage run_stage cleanup_stage : Stage

pub data RunError : Type 0 where
  stale_run_hash : String → String → RunError
  stale_journal_head : Option String → Option String → RunError
  identity_change intent_exists transaction_mismatch : RunError
  invalid_run : RunConfigError → RunError
  invalid_evidence : RunError
  journal_failure : JournalError → RunError
  stopped : Stage → RunError

-- `RunMutation`: `expected_journal_head` is `none` where it is not given, and the outer option where
-- it is; `validate` is `validateBeforeCommit`, true where it is not given.
pub record RunMutation : Type 0 where
  pub expected_run_hash : String
  pub expected_journal_head : Option (Option String)
  pub event : AppendEventInput
  pub event_payload : Fields
  pub update : Json → Json
  pub validate : Json → Bool

pub record RunMutationResult : Type 0 where
  pub run : Json
  pub run_hash : String
  pub event_hash : String

abbrev lift_journal : {A : Type 0} → Result JournalError A → Result RunError A
lift_journal (ok a) = ok a
lift_journal (err e) = err (journal_failure e)

abbrev lift_config : {A : Type 0} → Result RunConfigError A → Result RunError A
lift_config (ok a) = ok a
lift_config (err e) = err (invalid_run e)

abbrev text_of : Option Json → Text
text_of (some (str s)) = s
text_of _ = []

-- `projectId` and `runId`, which are texts in every run that has the shape of the schema.
pub identity_of : Json → Identity
identity_of run = record {
  project_id = text_of (member (units "projectId") run);
  run_id = text_of (member (units "runId") run);
}

abbrev pub with_id : String → Event → Bool
with_id event_id e = e.event_id == event_id

-- The payload of the event of a mutation.
pub transaction_payload : Fields → String → Json → Json
transaction_payload payload after_hash after = obj (
    set_field (units "transaction")
      (obj (field (units "afterHash") (str (units after_hash)) (field (units "after") after end)))
      payload)

-- What a mutation decides before it writes: the current run, the head of the journal and the next
-- run.
pub record Plan : Type 0 where
  pub current : Json
  pub journal_head : Option String
  pub next : Json

-- `readRaw`.
pub read_raw : (Json → Bool) → RunDisk → Result RunError Json
read_raw check disk = lift_config (parse_run_config check disk.run_file)

abbrev expect_head : Option (Option String) → Option String → Result RunError Unit
expect_head none head = ok tt
expect_head (some expected) head =
    refuse (not (expected == head)) (stale_journal_head expected head)

abbrev pub hits : Option Stage → Stage → Bool
hits (some intent_stage) intent_stage = true
hits (some journal_stage) journal_stage = true
hits (some run_stage) run_stage = true
hits (some cleanup_stage) cleanup_stage = true
hits _ _ = false

-- The input of the call of `append` in a mutation.
pub event_input : RunMutation → Option String → String → Json → AppendEventInput
event_input m journal_head after_hash next = record m.event {
  expected_head = journal_head;
  payload = transaction_payload m.event_payload after_hash next;
}

module _ (sha256_text : Text → String) where
  -- The test of `recover` on the event with the intent's id: what it recorded as the next run.
  pub recorded_after : TransactionIntent → Option Json → Result RunError Json
  recorded_after intent none = err transaction_mismatch
  recorded_after intent (some transaction) = elim (member (units "after") transaction) [
    | none ↦ err transaction_mismatch
    | some after ↦ do
      refuse
          (not (is_text (units intent.after_hash) (member (units "afterHash") transaction))
            || not (sha256_json sha256_text after == intent.after_hash))
          transaction_mismatch
      ok after
  ]

  recover_committed : TransactionIntent → Option Event → RunDisk → Result RunError Unit × RunDisk
  recover_committed intent none disk = (ok tt, record disk { intent = none })
  recover_committed intent (some e) disk =
      elim (recorded_after intent (member (units "transaction") e.payload)) [
        | ok after ↦ (ok tt, record disk { run_file = after; intent = none })
        | err x ↦ (err x, disk)
      ]

  recover_intent : Option TransactionIntent → RunDisk → Result RunError Unit × RunDisk
  recover_intent none disk = (ok tt, disk)
  recover_intent (some intent) disk = elim (replay sha256_text none disk.journal) [
    | ok events ↦ recover_committed intent (find (with_id intent.event_id) events) disk
    | err x ↦ (err (journal_failure x), disk)
  ]

  pub recover : RunDisk → Result RunError Unit × RunDisk
  unfolding recover_intent recover_committed
  recover disk = recover_intent disk.intent disk

  pub plan : (Json → Bool) → RunMutation → RunDisk → Result RunError Plan
  plan check m disk = do
    current ← read_raw check disk
    let actual = sha256_json sha256_text current
    refuse (not (actual == m.expected_run_hash)) (stale_run_hash m.expected_run_hash actual)
    journal_head ← lift_journal (head sha256_text (some (identity_of current)) disk.journal)
    expect_head m.expected_journal_head journal_head
    let next = m.update current
    refuse (not (identity_eq (identity_of next) (identity_of current))) identity_change
    refuse (not (m.validate current)) invalid_evidence
    refuse (is_some disk.intent) intent_exists
    ok (record { current = current; journal_head = journal_head; next = next })

  -- The writes after the event is in the journal.
  pub finish :
      Option Stage → Plan → String → Event → RunDisk → Result RunError RunMutationResult × RunDisk
  finish fault p after_hash e disk =
      let written = record disk { run_file = p.next } in
      let cleaned = record written { intent = none } in
      if hits fault journal_stage
      then (err (stopped journal_stage), disk)
      else if hits fault run_stage
      then (err (stopped run_stage), written)
      else if hits fault cleanup_stage
      then (err (stopped cleanup_stage), cleaned)
      else (ok (record { run = p.next; run_hash = after_hash; event_hash = e.hash }), cleaned)

  append_event :
      Option Stage
      → RunMutation
      → Plan
      → String
      → RunDisk
      → Result RunError RunMutationResult × RunDisk
  append_event fault m p after_hash disk =
      let (r, files) =
        append sha256_text (some (identity_of p.current))
          (event_input m p.journal_head after_hash p.next) disk.journal in
      let disk' = record disk { journal = files } in
      elim r [ ok e ↦ finish fault p after_hash e disk' | err x ↦ (err (journal_failure x), disk') ]

  -- `mutate` from the write of the intent on; the process stops after the stage `fault`.
  pub commit :
      Option Stage → RunMutation → Plan → RunDisk → Result RunError RunMutationResult × RunDisk
  unfolding append_event
  commit fault m p disk =
      let after_hash = sha256_json sha256_text p.next in
      let intent : TransactionIntent = record {
        event_id = m.event.event_id;
        before_hash = sha256_json sha256_text p.current;
        after_hash = after_hash;
        after = p.next;
      } in
      let begun = record disk { intent = some intent } in
      if hits fault intent_stage
      then (err (stopped intent_stage), begun)
      else append_event fault m p after_hash begun

  pub mutate_recovered :
      Option Stage
      → (Json → Bool)
      → RunMutation
      → RunDisk
      → Result RunError RunMutationResult × RunDisk
  mutate_recovered fault check m disk = elim (plan check m disk) [
    | ok p ↦ commit fault m p disk
    | err x ↦ (err x, disk)
  ]

  pub mutate :
      Option Stage
      → (Json → Bool)
      → RunMutation
      → RunDisk
      → Result RunError RunMutationResult × RunDisk
  unfolding mutate_recovered
  mutate fault check m disk =
      let (r, disk') = recover disk in
      elim r [ ok _ ↦ mutate_recovered fault check m disk' | err x ↦ (err x, disk') ]
