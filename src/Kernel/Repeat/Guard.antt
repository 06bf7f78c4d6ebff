-- ===== src/Kernel/Repeat/Guard.antt =====
-- `guardedCall` of packages/kernel/src/repeat-guard.ts: look-up, replay or execution, and storage.
use apex_vnext.Common.{
  ℕ, suc, ◌+◌, Bool, true, false, ◌&&◌, ◌||◌, List, [], ◌∷◌, ◌++◌, Option, none, some, Result, ok,
  err, ltb, leb, ◌==◌, nat_Eq, option_Eq, if◌then◌else◌, ◌>>=◌, ◌>>◌, is_some,
}
use apex_vnext.Common.Assoc.{put}
use apex_vnext.Kernel.Canonical.{Text, Json, str, num, obj, end, field, units, text_Eq}
use apex_vnext.Kernel.Evidence.Texts.{utf8_size}
use apex_vnext.Kernel.Repeat.{
  null_or_str, RepeatRecord, stored, RepeatEvent, RepeatDisk, RepeatError, stale_head,
  append_failed, window_not_positive, records_out_of_range, max_repeat_records, read_repeat_records,
  next_records, max_repeat_result_bytes,
}

-- `RepeatScope`; `bound_files` says whether the scope binds files.
pub record RepeatScope : Type 0 where
  pub run_directory : Text
  pub state : Text
  pub bound_files : Bool

-- A call with its hash, and its worktree resolved.
pub record RepeatCall : Type 0 where
  pub operation : Text
  pub workspace : Text
  pub call_hash : Text

-- What the hooks, the clock and the audit journal return to one call, in the order of the code:
-- `before`, `again` and `after` are the three calls of `scope`, `stable_before` and `stable_after`
-- those of `identityStable`, `true` where that hook is not given, `appends` the attempts of
-- `journal.append`, and `held` is what `repeatFilesHeld` returns on the files read before and after.
pub record Observed (T : Type 0) : Type 0 where
  pub before : Result RepeatError (Option RepeatScope)
  pub now_before : ℕ
  pub stable_before : Result RepeatError Bool
  pub again : Result RepeatError (Option RepeatScope)
  pub allowed : Result RepeatError Unit
  pub appends : List (Result RepeatError Unit)
  pub executed : Result RepeatError T
  pub stable_after : Result RepeatError Bool
  pub after : Result RepeatError (Option RepeatScope)
  pub held : Result RepeatError Bool
  pub now_after : ℕ
  pub valid_until : Result RepeatError (Option ℕ)

pub record RepeatOutcome (T : Type 0) : Type 0 where
  pub value : T
  pub repeated : Bool
  pub fingerprint : Text

-- `appendRepeatEvent`: three attempts at most, another one only after a stale head. An attempt that
-- is not given fails.
unfoldable pub append_attempts : ℕ → List (Result RepeatError Unit) → Result RepeatError Unit
append_attempts attempts [] = err append_failed
append_attempts attempts (ok _ ∷ rest) = ok tt
append_attempts (suc (suc n)) (err stale_head ∷ rest) = append_attempts (suc n) rest
append_attempts attempts (err e ∷ rest) = err e

-- `records.findLast(...)`.
unfoldable pub matches : Text → Text → ℕ → RepeatRecord → Bool
matches call_hash state now r =
    r.call_hash == call_hash && r.state_after == state && ltb now r.expires_at

or_last : RepeatRecord → Bool → Option RepeatRecord → Option RepeatRecord
or_last r b (some found) = some found
or_last r true none = some r
or_last r false none = none

unfoldable pub find_last : (RepeatRecord → Bool) → List RepeatRecord → Option RepeatRecord
unfolding or_last
find_last p [] = none
find_last p (r ∷ records) = or_last r (p r) (find_last p records)

unfoldable pub state_of : Option RepeatScope → Option Text
state_of none = none
state_of (some s) = some s.state

-- A failure of `scope()` counts as no scope.
unfoldable pub or_none : Result RepeatError (Option RepeatScope) → Option RepeatScope
or_none (ok s) = s
or_none (err e) = none

-- The earlier of the window's end and the limit that the operation sets.
unfoldable pub expiry : ℕ → ℕ → Option ℕ → ℕ
expiry now window none = now + window
expiry now window (some limit) = if ltb limit (now + window) then limit else now + window

-- What the guard calls: `to_iso` is `toISOString`, `digest` is `sha256Json`, `parse` is `JSON.parse` to
-- an object, `stringify` is `JSON.stringify`, and `text_hash` is `sha256Text`.
pub record RepeatHost (T : Type 0) : Type 0 where
  pub to_iso : ℕ → Text
  pub digest : Json → Text
  pub parse : Text → Option T
  pub stringify : T → Result RepeatError (Option Text)
  pub text_hash : Text → Text

module _ {T : Type 0} (host : RepeatHost T) where
  open host use {to_iso, digest, parse, stringify, text_hash}

  -- `repeatFingerprint`.
  unfoldable pub fingerprint_of : Text → Option Text → Text
  fingerprint_of call_hash state = digest (
      obj (
        field (units "version") (num (units "1")) (
          field (units "callHash") (str call_hash)
            (field (units "state") (null_or_str state) end))))

  -- The record that answers the call, with the value that it holds.
  unfoldable pub answer_from : Option RepeatRecord → Option (RepeatRecord × T)
  answer_from none = none
  answer_from (some r) = elim (parse r.result) [ none ↦ none | some v ↦ some (r, v) ]

  unfoldable pub look_up : RepeatDisk → RepeatCall → RepeatScope → ℕ → Option (RepeatRecord × T)
  unfolding answer_from
  look_up disk call scope now = answer_from (
      find_last (matches call.call_hash scope.state now)
        (read_repeat_records to_iso disk scope.run_directory))

  -- The identity and the state still hold.
  unfoldable pub still_holds : RepeatScope → Observed T → Result RepeatError Bool
  unfolding state_of or_none
  still_holds scope o = do
    stable ← o.stable_before
    ok (stable && state_of (or_none o.again) == some scope.state)

  unfoldable pub repeat_event : RepeatCall → RepeatScope → RepeatRecord → Text → RepeatEvent
  repeat_event call scope r fingerprint = record {
    run_directory = scope.run_directory;
    operation = r.operation;
    workspace = call.workspace;
    call_hash = r.call_hash;
    fingerprint = fingerprint;
    original_fingerprint = r.fingerprint;
    state = scope.state;
    original_recorded_at = r.recorded_at;
    result_hash = text_hash r.result;
  }

  candidate :
      RepeatCall → Option RepeatScope → RepeatScope → Observed T → ℕ → Text → Option RepeatRecord
  unfolding state_of
  candidate call before after o expires_at result =
      if leb (utf8_size result) max_repeat_result_bytes
        && is_some (parse result)
        && ltb o.now_after expires_at
      then some (record {
        fingerprint = fingerprint_of call.call_hash (state_of before);
        call_hash = call.call_hash;
        operation = call.operation;
        state_before = state_of before;
        state_after = after.state;
        recorded_at = o.now_after;
        expires_at = expires_at;
        result = result;
      })
      else none

  -- The candidate of `storeRepeatRecord`, if the result is storable.
  unfoldable pub candidate_of :
      RepeatCall
      → Option RepeatScope
      → RepeatScope
      → Observed T
      → ℕ
      → Option Text
      → Option RepeatRecord
  unfolding candidate
  candidate_of call before after o expires_at none = none
  candidate_of call before after o expires_at (some result) =
      candidate call before after o expires_at result

  -- Whether a result may be stored at all, and under which scope.
  binds_files : Option RepeatScope → Bool
  binds_files none = false
  binds_files (some s) = s.bound_files

  unfoldable pub storage_scope :
      Observed T → Option RepeatScope → Result RepeatError (Option RepeatScope)
  unfolding binds_files
  storage_scope o before = do
    stable ← o.stable_after
    after ← o.after
    held ← (if binds_files before then o.held else ok true)
    ok (if stable && held then after else none)

  unfoldable pub write_records :
      Text → Result RepeatError (List RepeatRecord) → RepeatDisk → RepeatDisk
  write_records directory (ok records) disk = record disk {
    files = put disk.files directory (stored records);
  }
  write_records directory (err e) disk = disk

  -- The records that a call leaves in the run directory of its last scope, or why it writes none.
  unfoldable pub new_records :
      ℕ
      → ℕ
      → RepeatCall
      → Option RepeatScope
      → Observed T
      → T
      → RepeatScope
      → RepeatDisk
      → Result RepeatError (List RepeatRecord)
  new_records window max_records call before o v after disk = do
    result ← stringify v
    limit ← o.valid_until
    next_records (read_repeat_records to_iso disk after.run_directory) after.state
        (candidate_of call before after o (expiry o.now_after window limit) result) call.call_hash
        o.now_after max_records

  unfoldable pub store_if :
      ℕ
      → ℕ
      → RepeatCall
      → Option RepeatScope
      → Observed T
      → T
      → Result RepeatError (Option RepeatScope)
      → RepeatDisk
      → RepeatDisk
  unfolding write_records
  store_if window max_records call before o v (ok (some after)) disk =
      write_records after.run_directory (new_records window max_records call before o v after disk)
        disk
  store_if window max_records call before o v (ok none) disk = disk
  store_if window max_records call before o v (err e) disk = disk

  -- What is known of the storage: nothing is stored if the first scope could not be read.
  unfoldable pub last_scope :
      Observed T → Result RepeatError (Option RepeatScope) → Result RepeatError (Option RepeatScope)
  last_scope o (ok before) = storage_scope o before
  last_scope o (err e) = ok none

  -- The result of `hooks.execute`, which is returned whatever happens to its storage.
  unfoldable pub execute :
      ℕ
      → ℕ
      → RepeatCall
      → Observed T
      → Text
      → RepeatDisk
      → Result RepeatError T
      → Result RepeatError (RepeatOutcome T) × RepeatDisk
  unfolding or_none
  execute window max_records call o fingerprint disk (err e) = (err e, disk)
  execute window max_records call o fingerprint disk (ok v) = (
    ok (record { value = v; repeated = false; fingerprint = fingerprint }),
    store_if window max_records call (or_none o.before) o v (last_scope o o.before) disk,
  )

  -- The answer from a record, with its audit event, if the call is a repeat.
  unfoldable pub audited :
      Observed T → T → RepeatEvent → Bool → Result RepeatError (Option (T × RepeatEvent))
  audited o v event false = ok none
  audited o v event true = do o.allowed; append_attempts 3 o.appends; ok (some (v, event))

  unfoldable pub repeat_answer :
      RepeatCall
      → RepeatScope
      → Observed T
      → Text
      → Option (RepeatRecord × T)
      → Result RepeatError (Option (T × RepeatEvent))
  repeat_answer call scope o fingerprint none = ok none
  repeat_answer call scope o fingerprint (some (r, v)) =
      still_holds scope o >>= audited o v (repeat_event call scope r fingerprint)

  unfoldable pub replay_call :
      RepeatCall
      → Option RepeatScope
      → Observed T
      → Text
      → RepeatDisk
      → Result RepeatError (Option (T × RepeatEvent))
  unfolding repeat_answer audited
  replay_call call none o fingerprint disk = ok none
  replay_call call (some scope) o fingerprint disk =
      repeat_answer call scope o fingerprint (look_up disk call scope o.now_before)

  -- The answer of a repeat, or else the execution.
  unfoldable pub respond :
      ℕ
      → ℕ
      → RepeatCall
      → Observed T
      → Text
      → RepeatDisk
      → Result RepeatError (Option (T × RepeatEvent))
      → Result RepeatError (RepeatOutcome T) × RepeatDisk
  respond window max_records call o fingerprint disk (err e) = (err e, disk)
  respond window max_records call o fingerprint disk (ok none) =
      execute window max_records call o fingerprint disk o.executed
  respond window max_records call o fingerprint disk (ok (some (v, event))) = (
    ok (record { value = v; repeated = true; fingerprint = fingerprint }),
    record disk { audit = disk.audit ++ event ∷ [] },
  )

  unfoldable pub guarded_call :
      ℕ
      → ℕ
      → RepeatCall
      → Observed T
      → RepeatDisk
      → Result RepeatError (RepeatOutcome T) × RepeatDisk
  unfolding or_none state_of
  guarded_call window max_records call o disk =
      let fingerprint = fingerprint_of call.call_hash (state_of (or_none o.before)) in
      respond window max_records call o fingerprint disk
        (replay_call call (or_none o.before) o fingerprint disk)

  -- `executeRepeatSafe`, under the workspace lock.
  unfoldable pub execute_repeat_safe :
      ℕ
      → ℕ
      → RepeatCall
      → Observed T
      → RepeatDisk
      → Result RepeatError (RepeatOutcome T) × RepeatDisk
  unfolding guarded_call
  execute_repeat_safe window max_records call o disk =
      if ltb window 1
      then (err window_not_positive, disk)
      else if ltb max_records 1 || ltb max_repeat_records max_records
      then (err records_out_of_range, disk)
      else guarded_call window max_records call o disk
