-- ===== src/Kernel/Repeat.antt =====
-- packages/kernel/src/repeat-guard.ts: a state-changing call that is repeated while nothing has
-- changed is answered from its original result. The state is the records file of each run directory
-- and the audit events; what a hook or the clock returns to a call is an argument of it. Times are
-- milliseconds, and a call runs under the workspace lock.
pub mod Guard
pub mod Records
pub mod Replay
pub mod Storage
pub mod RoundTrip
mod Tests
use apex_vnext.Common.{
  ℕ, zero, suc, ◌+◌, Bool, true, false, ◌&&◌, ◌||◌, List, [], ◌∷◌, ◌++◌, Option, none, some, Result,
  ok, err, not, ltb, leb, ◌==◌, nat_Eq, option_Eq, if◌then◌else◌, refuse, ◌>>=◌, ◌>>◌, filter, all,
  length,
}
use apex_vnext.Common.Assoc.{get, put}
use apex_vnext.Kernel.Canonical.{
  Text, text_Eq, units, Json, null, str, arr, obj, Items, nil, cons, Fields, end, field,
  canonical_json,
}
use apex_vnext.Kernel.Objects.{is_hash}
use apex_vnext.Kernel.Evidence.Texts.{utf8_size}

abbrev pub max_repeat_records : ℕ
max_repeat_records = 16

abbrev pub max_repeat_result_bytes : ℕ
max_repeat_result_bytes = 65536

-- `RepeatGuardRecordV1`; a file with a time that is no date is malformed.
pub record RepeatRecord : Type 0 where
  pub fingerprint : Text
  pub call_hash : Text
  pub operation : Text
  pub state_before : Option Text
  pub state_after : Text
  pub recorded_at : ℕ
  pub expires_at : ℕ
  pub result : Text

-- The records file: `unreadable` is an absent, unsafe, oversized or malformed one.
pub data RecordsFile : Type 0 where
  unreadable : RecordsFile
  stored : List RepeatRecord → RecordsFile

-- The payload of a `call.repeated` event, with the run directory that it is appended in.
pub record RepeatEvent : Type 0 where
  pub run_directory : Text
  pub operation : Text
  pub workspace : Text
  pub call_hash : Text
  pub fingerprint : Text
  pub original_fingerprint : Text
  pub state : Text
  pub original_recorded_at : ℕ
  pub result_hash : Text

pub record RepeatDisk : Type 0 where
  pub files : List (Text × RecordsFile)
  pub audit : List RepeatEvent

pub data RepeatError : Type 0 where
  hook_failed replay_refused execution_failed : RepeatError
  stale_head append_failed : RepeatError
  records_invalid : RepeatError
  window_not_positive records_out_of_range : RepeatError

pub fits_result : RepeatRecord → Bool
fits_result r = leb (utf8_size r.result) max_repeat_result_bytes

-- `records.slice(-n)`.
unfoldable pub take_last : ℕ → List RepeatRecord → List RepeatRecord
take_last n [] = []
take_last n (r ∷ records) =
    let rest = take_last n records in if leb (length (r ∷ records)) n then r ∷ records else rest

unfoldable pub is_live : Text → Text → ℕ → RepeatRecord → Bool
is_live state call_hash now r =
    r.state_after == state && ltb now r.expires_at && not (r.call_hash == call_hash)

abbrev pub candidates : Option RepeatRecord → List RepeatRecord
candidates none = []
candidates (some r) = r ∷ []

abbrev pub max_repeat_guard_file_bytes : ℕ
max_repeat_guard_file_bytes = 6356992

-- `^[A-Za-z][A-Za-z0-9_-]{0,63}$`.
is_letter : ℕ → Bool
is_letter c = (leb b'A' c && leb c b'Z') || (leb b'a' c && leb c b'z')

is_name_unit : ℕ → Bool
unfolding is_letter
is_name_unit c = is_letter c || (leb b'0' c && leb c b'9') || c == b'_' || c == b'-'

unfoldable pub is_operation : Text → Bool
unfolding is_letter is_name_unit
is_operation [] = false
is_operation (c ∷ t) = is_letter c && all is_name_unit t && leb (length t) 63

abbrev is_state : Option Text → Bool
is_state none = true
is_state (some t) = is_hash t

-- `RepeatGuardRecordV1Schema`, whose dates are well formed here.
unfoldable pub fits_schema : RepeatRecord → Bool
unfolding is_hash is_operation
fits_schema r =
    is_hash r.fingerprint
    && is_hash r.call_hash
    && is_operation r.operation
    && is_state r.state_before
    && is_hash r.state_after
    && leb 2 (length r.result)
    && leb (length r.result) 65536

-- `RepeatGuardRecordsV1Schema`.
unfoldable pub fits_records_schema : List RepeatRecord → Bool
unfolding fits_schema
fits_records_schema records = leb (length records) 16 && all fits_schema records

unfoldable pub valid_records : List RepeatRecord → Bool
unfolding fits_result fits_records_schema
valid_records records =
    fits_records_schema records
    && leb (length records) max_repeat_records
    && all fits_result records

abbrev pub null_or_str : Option Text → Json
null_or_str none = null
null_or_str (some t) = str t

-- The file of some records; `to_iso` is `toISOString`.
module _ (to_iso : ℕ → Text) where
  abbrev pub record_json : RepeatRecord → Json
  record_json r = obj (
      field (units "fingerprint") (str r.fingerprint) (
        field (units "callHash") (str r.call_hash) (
          field (units "operation") (str r.operation) (
            field (units "stateBefore") (null_or_str r.state_before) (
              field (units "stateAfter") (str r.state_after) (
                field (units "recordedAt") (str (to_iso r.recorded_at)) (
                  field (units "expiresAt") (str (to_iso r.expires_at))
                    (field (units "result") (str r.result) end))))))))

  abbrev pub records_json : List RepeatRecord → Items
  records_json [] = nil
  records_json (r ∷ records) = cons (record_json r) (records_json records)

  unfoldable pub file_bytes : List RepeatRecord → ℕ
  unfolding utf8_size
  file_bytes records = utf8_size (
      canonical_json (
        obj (
          field (units "schemaVersion") (str (units "1.0.0"))
            (field (units "records") (arr (records_json records)) end))))

  read_file : Option RecordsFile → List RepeatRecord
  unfolding file_bytes
  read_file none = []
  read_file (some unreadable) = []
  read_file (some (stored records)) =
      if leb (file_bytes records) max_repeat_guard_file_bytes && valid_records records
      then records
      else []

  unfoldable pub read_repeat_records : RepeatDisk → Text → List RepeatRecord
  unfolding read_file
  read_repeat_records disk directory = read_file (get disk.files directory)

-- What `storeRepeatRecord` writes, or the error that it throws.
unfoldable pub next_records :
    List RepeatRecord
    → Text
    → Option RepeatRecord
    → Text
    → ℕ
    → ℕ
    → Result RepeatError (List RepeatRecord)
next_records found state candidate call_hash now max_records = do
  let records =
      take_last max_records (filter (is_live state call_hash now) found ++ candidates candidate)
  refuse (not (valid_records records)) records_invalid
  ok records
