-- ===== src/Kernel/Repeat/Tests.antt =====
-- The repeat guard at concrete inputs: a call that returns the number 7, and its repeat.
use apex_vnext.Common.{
  ℕ, ◌≡◌, refl, true, false, [], ◌∷◌, ◌++◌, Option, none, some, Result, ok, err, arith,
}
use apex_vnext.Common.Assoc.{get, put}
use apex_vnext.Kernel.Canonical.{Text, units, text_lt, canonical_json}
use apex_vnext.Kernel.Objects.{is_hash}
use apex_vnext.Kernel.Evidence.Texts.{utf8_size}
use apex_vnext.Kernel.Repeat.{
  RepeatRecord, stored, RepeatDisk, RepeatError, execution_failed, stale_head, read_repeat_records,
  valid_records, fits_records_schema, fits_schema, is_operation, file_bytes, take_last,
  next_records,
}
use apex_vnext.Kernel.Repeat.Guard.{
  RepeatHost, RepeatScope, RepeatCall, Observed, RepeatOutcome, fingerprint_of, append_attempts,
  matches, find_last, expiry, look_up, still_holds, repeat_event, candidate_of, new_records,
  last_scope, storage_scope, store_if, guarded_call, execute_repeat_safe, respond, replay_call,
  execute,
}
use apex_vnext.Kernel.Repeat.Replay.{Answers, repeated_from_record}
use apex_vnext.Kernel.Repeat.Records.{Listed}
use apex_vnext.Kernel.Repeat.RoundTrip.{call_then_repeat}

abbrev parse_number : Text → Option ℕ
parse_number (n ∷ m ∷ []) = some n
parse_number _ = none

-- Digests of 64 hexadecimal digits.
abbrev hash : Text
hash = units "0123456789abcdef0123456789abcdef0123456789abcdef0123456789abcdef"

abbrev state : Text
state = units "ffffffffffffffffffffffffffffffffffffffffffffffffffffffffffffffff"

abbrev host : RepeatHost ℕ
host = record {
  to_iso = λ t. t ∷ [];
  digest = λ j. hash;
  parse = parse_number;
  stringify = λ n. ok (some (n ∷ n ∷ []));
  text_hash = λ t. t;
}

abbrev scope : RepeatScope
scope = record { run_directory = units "r"; state = state; bound_files = false }

abbrev call : RepeatCall
call = record { operation = units "op"; workspace = units "/w"; call_hash = hash }

-- The hooks of a call at the time `now`.
abbrev observed : ℕ → Result RepeatError ℕ → Observed ℕ
observed now result = record {
  before = ok (some scope);
  now_before = now;
  stable_before = ok true;
  again = ok (some scope);
  allowed = ok tt;
  appends = err stale_head ∷ ok tt ∷ [];
  executed = result;
  stable_after = ok true;
  after = ok (some scope);
  held = ok true;
  now_after = now;
  valid_until = ok none;
}

abbrev empty_disk : RepeatDisk
empty_disk = record { files = []; audit = [] }

abbrev kept : RepeatRecord
kept = record {
  fingerprint = hash;
  call_hash = hash;
  operation = units "op";
  state_before = some state;
  state_after = state;
  recorded_at = 5;
  expires_at = 105;
  result = 7 ∷ 7 ∷ [];
}

abbrev kept_disk : RepeatDisk
kept_disk = record { files = (units "r", stored (kept ∷ [])) ∷ []; audit = [] }

abbrev first_outcome : RepeatOutcome ℕ
first_outcome = record { value = 7; repeated = false; fingerprint = hash }

abbrev repeated_outcome : RepeatOutcome ℕ
repeated_outcome = record { value = 7; repeated = true; fingerprint = hash }

first_call :
    execute_repeat_safe host 100 16 call (observed 5 (ok 7)) empty_disk
    ≡ (ok first_outcome, kept_disk)
unfolding execute_repeat_safe guarded_call respond replay_call look_up find_last read_repeat_records
    get valid_records fits_records_schema fits_schema is_hash is_operation file_bytes canonical_json
    text_lt utf8_size matches still_holds append_attempts execute store_if last_scope storage_scope
    new_records next_records take_last candidate_of expiry put fingerprint_of
first_call = refl

abbrev audited_disk : RepeatDisk
audited_disk = record kept_disk { audit = repeat_event host call scope kept hash ∷ [] }

second_call :
    execute_repeat_safe host 100 16 call (observed 50 (ok 8)) kept_disk
    ≡ (ok repeated_outcome, audited_disk)
unfolding execute_repeat_safe guarded_call respond replay_call look_up find_last read_repeat_records
    get valid_records fits_records_schema fits_schema is_hash is_operation file_bytes canonical_json
    text_lt utf8_size matches still_holds append_attempts execute store_if last_scope storage_scope
    new_records next_records take_last candidate_of expiry put fingerprint_of
second_call = refl

-- Past the expiry the call is executed again.
abbrev newer_outcome : RepeatOutcome ℕ
newer_outcome = record { value = 8; repeated = false; fingerprint = hash }

third_call :
    (execute_repeat_safe host 100 16 call (observed 105 (ok 8)) kept_disk).0 ≡ ok newer_outcome
unfolding execute_repeat_safe guarded_call respond replay_call look_up find_last read_repeat_records
    get valid_records fits_records_schema fits_schema is_hash is_operation file_bytes canonical_json
    text_lt utf8_size matches still_holds append_attempts execute store_if last_scope storage_scope
    new_records next_records take_last candidate_of expiry put fingerprint_of
third_call = refl

repeated_from_record_example :
    (s : RepeatScope) × (r : RepeatRecord) × ((observed 50 (ok 8)).before ≡ ok (some s))
    × Listed r (read_repeat_records host.to_iso kept_disk s.run_directory)
    × Answers host call s.state 50 r
    × (parse_number r.result ≡ some 7)
    × (still_holds host s (observed 50 (ok 8)) ≡ ok true)
    × ((observed 50 (ok 8)).allowed ≡ ok tt)
    × (audited_disk ≡ record kept_disk { audit = [] ++ repeat_event host call s r hash ∷ [] })
repeated_from_record_example =
    repeated_from_record host 100 16 call (observed 50 (ok 8)) kept_disk audited_disk
      repeated_outcome second_call refl

failed_call :
    execute_repeat_safe host 100 16 call (observed 5 (err execution_failed)) empty_disk
    ≡ (err execution_failed, empty_disk)
unfolding execute_repeat_safe guarded_call respond replay_call look_up find_last read_repeat_records
    get valid_records fits_records_schema fits_schema is_hash is_operation file_bytes canonical_json
    text_lt utf8_size matches still_holds append_attempts execute store_if last_scope storage_scope
    new_records next_records take_last candidate_of expiry put fingerprint_of
failed_call = refl

call_then_repeat_example :
    (r : RepeatRecord) × (execute_repeat_safe host 100 16 call (observed 50 (ok 8)) kept_disk ≡ (
      ok repeated_outcome,
      record kept_disk { audit = [] ++ repeat_event host call scope r hash ∷ [] },
    ))
unfolding new_records next_records read_repeat_records get valid_records fits_records_schema
    fits_schema is_hash is_operation file_bytes canonical_json text_lt take_last candidate_of
    last_scope storage_scope still_holds append_attempts expiry utf8_size fingerprint_of
call_then_repeat_example =
    call_then_repeat host 100 16 call (observed 5 (ok 7)) (observed 50 (ok 8)) empty_disk kept_disk
      first_outcome scope scope (7 ∷ 7 ∷ []) none (kept ∷ []) first_call refl refl refl
      (omega arith) refl (omega arith) refl refl (omega arith) refl refl refl (omega arith) refl
      refl refl
