-- ===== src/Kernel/Run/Atomic.antt =====
-- A mutation of a run happens as a whole or not at all, wherever the process stops.
use apex_vnext.Common.{
  ◌+◌, ◌≤◌, String, ◌≡◌, refl, ap, Bool, true, List, [], ◌∷◌, ◌++◌, Option, none, some, ok, arith,
  eq_iff, inl, inr, All, ◌∙◌, sym, length, string_Eq, subst, Result-cases,
}
use apex_vnext.Kernel.Canonical.{Text, Json, sha256_json}
use apex_vnext.Kernel.Journal.{Event, replay, stored, append}
use apex_vnext.Kernel.Journal.Replay.{identity_eq_iff}
use apex_vnext.Kernel.Journal.Append.{
  event_of, head_hash, last_epoch, append_then_replay, head-replayed,
}
use apex_vnext.Kernel.RunConfig.{parse_run_config, parse_run_config-ok_iff}
use apex_vnext.Kernel.Run.{
  TransactionIntent, RunDisk, RunMutation, Stage, intent_stage, journal_stage, run_stage, Plan,
  identity_of, event_input, plan, commit, finish, mutate, read_raw,
}
use apex_vnext.Kernel.Run.Recovery.{recover_quiet, replay-bind, replay-unbind}

module _ (sha256_text : Text → String) (check : Json → Bool) where
  -- The guards of a mutation passed: what was read, and that it was as expected.
  pub record Passed (m : RunMutation) (disk : RunDisk) (es : List Event) (p : Plan) : Type 0 where
    pub current : p.current ≡ disk.run_file
    pub next : p.next ≡ m.update disk.run_file
    pub head : p.journal_head ≡ head_hash es
    pub fresh_hash : sha256_json sha256_text disk.run_file ≡ m.expected_run_hash
    pub same_run : identity_of p.next ≡ identity_of disk.run_file
    pub evidence : m.validate disk.run_file ≡ true

  pub read_raw-current :
      (disk : RunDisk) (run : Json) → read_raw check disk ≡ ok run → run ≡ disk.run_file
  unfolding read_raw
  read_raw-current disk run h = elim (Result-cases (parse_run_config check disk.run_file)) [
    | inl (r, e) ↦
        let (_, same, _) = (parse_run_config-ok_iff check disk.run_file r).0 e in
        ground (arith, e, same)
    | inr (x, e) ↦ ground (arith, e)
  ]

  plan-Passed :
      (m : RunMutation) (disk : RunDisk) (es : List Event) (p : Plan)
      → replay sha256_text none disk.journal ≡ ok es
      → All (λ (e : Event). e.identity ≡ identity_of disk.run_file) es
      → plan sha256_text check m disk ≡ ok p
      → Passed m disk es p
  unfolding plan
  plan-Passed m disk es p h one q = elim (Result-cases (read_raw check disk)) [
    | inl (r, e) ↦
        let e' : read_raw check disk ≡ ok disk.run_file = e ∙ ap ok (read_raw-current disk r e) in
        ground (
          arith,
          e',
          head-replayed sha256_text (some (identity_of disk.run_file)) disk.journal es
              (replay-bind sha256_text (identity_of disk.run_file) disk.journal es one h),
          eq_iff (sha256_json sha256_text disk.run_file) m.expected_run_hash,
          identity_eq_iff (identity_of (m.update disk.run_file)) (identity_of disk.run_file),
        )
    | inr (x, e) ↦ absurd (ground (arith, e))
  ]

  -- The event of a mutation, and what a mutation that is complete leaves on disk.
  abbrev pub event_for : RunMutation → RunDisk → List Event → Event
  event_for m disk es =
      let next = m.update disk.run_file in
      event_of sha256_text (event_input m (head_hash es) (sha256_json sha256_text next) next) es

  abbrev pub committed : RunMutation → RunDisk → List Event → RunDisk
  committed m disk es = record {
    run_file = m.update disk.run_file;
    intent = none;
    journal = disk.journal ++ (length es + 1, stored (event_for m disk es)) ∷ [];
  }

  abbrev intent_of : RunMutation → RunDisk → TransactionIntent
  intent_of m disk = record {
    event_id = m.event.event_id;
    before_hash = sha256_json sha256_text disk.run_file;
    after_hash = sha256_json sha256_text (m.update disk.run_file);
    after = m.update disk.run_file;
  }

  -- What a stopped mutation leaves on disk.
  abbrev left_by : Option Stage → RunMutation → RunDisk → List Event → RunDisk
  left_by (some intent_stage) m disk es = record disk { intent = some (intent_of m disk) }
  left_by (some journal_stage) m disk es = record (committed m disk es) {
    run_file = disk.run_file;
    intent = some (intent_of m disk);
  }
  left_by (some run_stage) m disk es = record (committed m disk es) {
    intent = some (intent_of m disk);
  }
  left_by _ m disk es = committed m disk es

  module _ (m : RunMutation) (disk : RunDisk) (es : List Event) (p : Plan)
      (quiet : disk.intent ≡ none) (replayed : replay sha256_text none disk.journal ≡ ok es)
      (one : All (λ (e : Event). e.identity ≡ identity_of disk.run_file) es)
      (own : m.event.identity ≡ identity_of disk.run_file)
      (epoch : last_epoch es ≤ m.event.owner_epoch) (positive : 1 ≤ m.event.owner_epoch)
      (planned : plan sha256_text check m disk ≡ ok p) where
    appended :
        (append sha256_text
            (some (identity_of disk.run_file))
            (event_input m
              (head_hash es)
              (sha256_json sha256_text (m.update disk.run_file))
              (m.update disk.run_file))
            disk.journal
          ≡ (ok (event_for m disk es), (committed m disk es).journal))
        × (replay sha256_text none (committed m disk es).journal
            ≡ ok (es ++ event_for m disk es ∷ []))
    unfolding event_input
    appended =
        let i = identity_of disk.run_file in
        let next = m.update disk.run_file in
        let (written, again, _) =
          append_then_replay sha256_text (some i)
            (event_input m (head_hash es) (sha256_json sha256_text next) next) disk.journal es
            (replay-bind sha256_text i disk.journal es one replayed)
            (subst (λ j. All (λ (e : Event). e.identity ≡ j) es) (sym own) one)
            (inr (ap some (sym own))) refl epoch positive in
        (
          written,
          replay-unbind sha256_text i (committed m disk es).journal (es ++ event_for m disk es ∷ [])
              again,
        )

    plan-eq : p ≡ record {
      current = disk.run_file;
      journal_head = head_hash es;
      next = m.update disk.run_file;
    }
    plan-eq =
        let q = plan-Passed m disk es p replayed one planned in
        ground (arith, q.current, q.next, q.head)

    abbrev decided : Plan
    decided = record {
      current = disk.run_file;
      journal_head = head_hash es;
      next = m.update disk.run_file;
    }

    mutate-commits :
        (fault : Option Stage)
        → mutate sha256_text fault check m disk ≡ commit sha256_text fault m decided disk
    unfolding mutate
    mutate-commits fault = ground (arith, recover_quiet sha256_text disk quiet, planned, plan-eq)

    -- A mutation whose guards pass and that is not stopped returns the next run with its digest and the
    -- event's, and has written all three: the run, the journal with one more event, and no intent. (No
    -- intent is pending, the journal replays, its events and the new one belong to the run, and the
    -- epoch of the new event is at least 1 and no less than the last one's.)
    pub mutate_completes : mutate sha256_text none check m disk ≡ (
      ok (record {
        run = m.update disk.run_file;
        run_hash = sha256_json sha256_text (m.update disk.run_file);
        event_hash = (event_for m disk es).hash;
      }),
      committed m disk es,
    )
    unfolding commit finish
    mutate_completes = mutate-commits none ∙ (ground (arith, appended.0))
