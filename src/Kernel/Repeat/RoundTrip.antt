-- ===== src/Kernel/Repeat/RoundTrip.antt =====
-- A call of packages/kernel/src/repeat-guard.ts and its repeat, one after the other.
use apex_vnext.Common.{
  ℕ, ◌≤◌, ◌<◌, true, false, ◌≡◌, refl, sym, ◌∙◌, ap, List, [], ◌∷◌, ◌++◌, Option, none, some,
  Result, ok, err, nat_Eq, arith, ◌≡⟨◌⟩◌, ◌∎, subst,
}
use apex_vnext.Common.Assoc.{put, get-put}
use apex_vnext.Kernel.Canonical.{Text, text_Eq, text_eq_iff}
use apex_vnext.Kernel.Evidence.Texts.{utf8_size}
use apex_vnext.Kernel.Repeat.{
  RepeatRecord, RecordsFile, stored, RepeatDisk, RepeatEvent, RepeatError, valid_records,
  read_repeat_records, max_repeat_guard_file_bytes, file_bytes, max_repeat_result_bytes,
}
use apex_vnext.Kernel.Repeat.Guard.{
  fingerprint_of, RepeatScope, RepeatCall, Observed, RepeatHost, RepeatOutcome, append_attempts,
  matches, find_last, state_of, or_none, expiry, look_up, still_holds, repeat_event, candidate_of,
  new_records, last_scope, store_if, write_records, guarded_call, execute_repeat_safe, respond,
  answer_from, repeat_answer, replay_call, execute, audited,
}
use apex_vnext.Kernel.Repeat.Replay.{safe-guarded}
use apex_vnext.Kernel.Repeat.Storage.{in_range, next_records-candidate}

module _ {T : Type 0} (host : RepeatHost T) where
  open host use {to_iso, parse, stringify}

  respond-executed :
      (window max_records : ℕ) (call : RepeatCall) (o : Observed T) (fingerprint : Text)
      (disk disk' : RepeatDisk) (out : RepeatOutcome T)
      (x : Result RepeatError (Option (T × RepeatEvent)))
      → respond host window max_records call o fingerprint disk x ≡ (ok out, disk')
      → out.repeated ≡ false
      → disk'
        ≡ store_if host window max_records call
            (or_none o.before)
            o
            out.value
            (last_scope host o o.before)
            disk
  unfolding respond execute
  respond-executed window max_records call o fingerprint disk disk' out (err e) h new = cc
  respond-executed window max_records call o fingerprint disk disk' out (ok (some (v, event))) h
        new =
      absurd (ground arith)
  respond-executed window max_records call o fingerprint disk disk' out (ok none) h new =
      executed o.executed h
    where
      executed :
          (x : Result RepeatError T)
          → execute host window max_records call o fingerprint disk x ≡ (ok out, disk')
          → disk'
            ≡ store_if host window max_records call
                (or_none o.before)
                o
                out.value
                (last_scope host o o.before)
                disk
      executed (err e) h = cc
      executed (ok v) h = ground arith

  -- The record of a storable result.
  record_of : RepeatCall → Option RepeatScope → RepeatScope → Observed T → ℕ → Text → RepeatRecord
  record_of call before after o expires_at t = record {
    fingerprint = fingerprint_of host call.call_hash (state_of before);
    call_hash = call.call_hash;
    operation = call.operation;
    state_before = state_of before;
    state_after = after.state;
    recorded_at = o.now_after;
    expires_at = expires_at;
    result = t;
  }

  candidate_of-some :
      (call : RepeatCall) (before : Option RepeatScope) (after : RepeatScope) (o : Observed T)
      (expires_at : ℕ) (t : Text) (v : T)
      → utf8_size t ≤ max_repeat_result_bytes
      → parse t ≡ some v
      → o.now_after < expires_at
      → candidate_of host call before after o expires_at (some t)
        ≡ some (record_of call before after o expires_at t)
  unfolding candidate_of record_of
  candidate_of-some call before after o expires_at t v size parsed soon = ground arith

  look_up-found :
      (disk : RepeatDisk) (call : RepeatCall) (scope : RepeatScope) (now : ℕ)
      (rs : List RepeatRecord) (c : RepeatRecord) (v : T)
      → read_repeat_records to_iso disk scope.run_directory ≡ rs
      → find_last (matches call.call_hash scope.state now) rs ≡ some c
      → parse c.result ≡ some v
      → look_up host disk call scope now ≡ some (c, v)
  unfolding look_up answer_from
  look_up-found disk call scope now rs c v read found parsed =
      answer_from host (
        find_last (matches call.call_hash scope.state now)
          (read_repeat_records to_iso disk scope.run_directory))
      ≡⟨ ap (λ xs. answer_from host (find_last (matches call.call_hash scope.state now) xs)) read ⟩
        answer_from host (find_last (matches call.call_hash scope.state now) rs)
      ≡⟨ ap (answer_from host) found ⟩ answer_from host (some c)
      ≡⟨ ground arith ⟩ some (c, v) ∎

  replay-found :
      (call : RepeatCall) (scope : RepeatScope) (o : Observed T) (fingerprint : Text)
      (disk : RepeatDisk) (c : RepeatRecord) (v : T)
      → look_up host disk call scope o.now_before ≡ some (c, v)
      → still_holds host scope o ≡ ok true
      → o.allowed ≡ ok tt
      → append_attempts 3 o.appends ≡ ok tt
      → replay_call host call (some scope) o fingerprint disk
        ≡ ok (some (v, repeat_event host call scope c fingerprint))
  unfolding replay_call repeat_answer audited
  replay-found call scope o fingerprint disk c v found holds allowed appended = ground arith

  read-written :
      (files : List (Text × RecordsFile)) (audit : List RepeatEvent) (directory : Text)
      (rs : List RepeatRecord)
      → file_bytes to_iso rs ≤ max_repeat_guard_file_bytes
      → valid_records rs ≡ true
      → read_repeat_records to_iso
          (record { files = put files directory (stored rs); audit = audit })
          directory
        ≡ rs
  unfolding read_repeat_records
  read-written files audit directory rs small valid =
      ground (arith, get-put files directory (stored rs) directory, text_eq_iff directory directory)

  -- Among the records that the first call stores is the one that answers its repeat.
  record_stored :
      (window max_records : ℕ) (call : RepeatCall) (o : Observed T) (disk : RepeatDisk) (v : T)
      (before : Option RepeatScope) (after : RepeatScope) (t : Text) (limit : Option ℕ)
      (rs : List RepeatRecord)
      → new_records host window max_records call before o v after disk ≡ ok rs
      → 1 ≤ max_records
      → stringify v ≡ ok (some t)
      → utf8_size t ≤ max_repeat_result_bytes
      → parse t ≡ some v
      → o.valid_until ≡ ok limit
      → o.now_after < expiry o.now_after window limit
      → (now : ℕ) → now < expiry o.now_after window limit
      → (c : RepeatRecord) × (valid_records rs ≡ true)
        × (find_last (matches call.call_hash after.state now) rs ≡ some c)
        × (c.result ≡ t)
  unfolding new_records record_of matches
  record_stored window max_records call o disk v before after t limit rs written low s size parsed l
        soon now early =
      let c = record_of call before after o (expiry o.now_after window limit) t in
      let added =
        candidate_of-some call before after o (expiry o.now_after window limit) t v size parsed
          soon in
      let (valid, found) =
        next_records-candidate host (read_repeat_records to_iso disk after.run_directory)
          after.state call.call_hash o.now_after max_records c rs (ground (arith, added)) low
          (matches call.call_hash after.state now)
          (ground (
            arith,
            text_eq_iff call.call_hash call.call_hash,
            text_eq_iff after.state after.state,
          )) in
      (c, valid, found, refl)

  write-found :
      (window max_records : ℕ) (call : RepeatCall) (o : Observed T) (disk disk' : RepeatDisk)
      (v : T) (after scope : RepeatScope) (rs : List RepeatRecord) (c : RepeatRecord) (now : ℕ)
      → last_scope host o o.before ≡ ok (some after)
      → new_records host window max_records call (or_none o.before) o v after disk ≡ ok rs
      → file_bytes to_iso rs ≤ max_repeat_guard_file_bytes
      → valid_records rs ≡ true
      → disk'
        ≡ store_if host window max_records call
            (or_none o.before)
            o
            v
            (last_scope host o o.before)
            disk
      → find_last (matches call.call_hash after.state now) rs ≡ some c
      → parse c.result ≡ some v
      → scope.run_directory ≡ after.run_directory
      → scope.state ≡ after.state
      → look_up host disk' call scope now ≡ some (c, v)
  unfolding store_if write_records
  write-found window max_records call o disk disk' v after scope rs c now last written small valid
        left found parsed dir state =
      look_up-found disk' call scope now rs c v
        (subst (λ d. read_repeat_records to_iso d scope.run_directory ≡ rs) (sym same)
          (subst (λ x. read_repeat_records to_iso next x ≡ rs) (sym dir)
            (read-written disk.files disk.audit after.run_directory rs small valid)))
        (subst (λ x. find_last (matches call.call_hash x now) rs ≡ some c) (sym state) found) parsed
    where
      next : RepeatDisk
      next = record disk { files = put disk.files after.run_directory (stored rs) }

      same : disk' ≡ next
      same = ground arith

  executed_left :
      (window max_records : ℕ) (call : RepeatCall) (o : Observed T) (disk disk' : RepeatDisk)
      (out : RepeatOutcome T)
      → guarded_call host window max_records call o disk ≡ (ok out, disk')
      → out.repeated ≡ false
      → disk'
        ≡ store_if host window max_records call
            (or_none o.before)
            o
            out.value
            (last_scope host o o.before)
            disk
  unfolding guarded_call
  executed_left window max_records call o disk disk' out h new =
      respond-executed window max_records call o _ disk disk' out _ h new

  guarded-answered :
      (window max_records : ℕ) (call : RepeatCall) (o : Observed T) (disk : RepeatDisk)
      (scope : RepeatScope) (v : T) (event : RepeatEvent)
      → o.before ≡ ok (some scope)
      → replay_call host call
          (some scope)
          o
          (fingerprint_of host call.call_hash (some scope.state))
          disk
        ≡ ok (some (v, event))
      → guarded_call host window max_records call o disk ≡ (
        ok (record {
          value = v;
          repeated = true;
          fingerprint = fingerprint_of host call.call_hash (some scope.state);
        }),
        record disk { audit = disk.audit ++ event ∷ [] },
      )
  unfolding guarded_call or_none state_of respond
  guarded-answered window max_records call o disk scope v event at answered =
      ap answer at
      ∙ ap
          (respond host window max_records call o
            (fingerprint_of host call.call_hash (some scope.state)) disk)
          answered
    where
      answer :
          Result RepeatError (Option RepeatScope)
          → Result RepeatError (RepeatOutcome T) × RepeatDisk
      answer before =
          let fingerprint = fingerprint_of host call.call_hash (state_of (or_none before)) in
          respond host window max_records call o fingerprint disk
            (replay_call host call (or_none before) o fingerprint disk)

  -- A call is answered once: after a call that was executed and stored its records, in a file within
  -- the limit of a reading, the same call made at the state that it left, before the expiry and with
  -- its hooks in agreement, returns the value of the first one without executing again and appends one
  -- audit event. The printed value is within the limit of a result, and parsing it gives the value back.
  pub call_then_repeat :
      (window max_records : ℕ) (call : RepeatCall) (first second : Observed T)
      (disk disk' : RepeatDisk) (out : RepeatOutcome T) (after scope : RepeatScope) (t : Text)
      (limit : Option ℕ) (rs : List RepeatRecord)
      → execute_repeat_safe host window max_records call first disk ≡ (ok out, disk')
      → out.repeated ≡ false
      → last_scope host first first.before ≡ ok (some after)
      → new_records host window max_records call (or_none first.before) first out.value after disk
        ≡ ok rs
      → file_bytes to_iso rs ≤ max_repeat_guard_file_bytes
      → stringify out.value ≡ ok (some t)
      → utf8_size t ≤ max_repeat_result_bytes
      → parse t ≡ some out.value
      → first.valid_until ≡ ok limit
      → first.now_after < expiry first.now_after window limit
      → second.before ≡ ok (some scope)
      → scope.run_directory ≡ after.run_directory
      → scope.state ≡ after.state
      → second.now_before < expiry first.now_after window limit
      → still_holds host scope second ≡ ok true
      → second.allowed ≡ ok tt
      → append_attempts 3 second.appends ≡ ok tt
      → (r : RepeatRecord) × (execute_repeat_safe host window max_records call second disk' ≡ (
        ok (record {
          value = out.value;
          repeated = true;
          fingerprint = fingerprint_of host call.call_hash (some scope.state);
        }),
        record disk' {
          audit =
              disk'.audit
              ++ repeat_event host call scope r
                  (fingerprint_of host call.call_hash (some scope.state))
                ∷ [];
        },
      ))
  call_then_repeat window max_records call first second disk disk' out after scope t limit rs h new
        last written small s size parsed l soon at dir state early holds allowed appended =
      let (low, high, runs) =
        in_range host window max_records call first second disk disk' disk' out h in
      let left =
        executed_left window max_records call first disk disk' out
          (safe-guarded host window max_records call first disk disk' out h) new in
      let (c, valid, found, result) =
        record_stored window max_records call first disk out.value (or_none first.before) after t
          limit rs written low s size parsed l soon second.now_before early in
      let looked =
        write-found window max_records call first disk disk' out.value after scope rs c
          second.now_before last written small valid left found (ap parse result ∙ parsed) dir
          state in
      (
        c,
        runs
            ∙ guarded-answered window max_records call second disk' scope out.value _ at
                (replay-found call scope second _ disk' c out.value looked holds allowed appended),
      )
