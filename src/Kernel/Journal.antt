-- ===== src/Kernel/Journal.antt =====
-- packages/kernel/src/event-journal.ts. A directory is its listing in the order of the file names
-- `0000000000000001.json`, each name read as its number. What a file holds is decided by the
-- checks of `readEventFile` and by `JSON.parse`: an unsafe file, no JSON, or an event.
pub mod Replay
pub mod Append
pub mod Conflicts
mod Tests
use Prim.Native.Nat.{◌/◌, ◌%◌}
use apex_vnext.Common.{
  ℕ, zero, suc, ◌+◌, String, Bool, true, false, ◌||◌, List, [], ◌∷◌, Option, none, some, Result, ok,
  err, not, ltb, ◌==◌, nat_Eq, string_Eq, option_Eq, if◌then◌else◌, refuse, ◌>>=◌, ◌>>◌, length,
  last?, or_else,
}
use mathlib.Core.Option
use apex_vnext.Kernel.Canonical.{
  Text, Json, null, num, str, obj, Fields, end, field, units, text_Eq, sha256_json,
}

pub record Identity : Type 0 where
  pub project_id : Text
  pub run_id : Text

-- `EventWithoutHash`, less the constant `schemaVersion`.
pub record EventBody : Type 0 where
  pub event_id : String
  pub identity : Identity
  pub open identity use *
  pub sequence : ℕ
  pub type : String
  pub timestamp : String
  pub owner_epoch : ℕ
  pub previous_hash : Option String
  pub payload_hash : String
  pub payload : Json

pub record Event : Type 0 where
  pub body : EventBody
  pub open body use *
  pub hash : String

pub record AppendEventInput : Type 0 where
  pub event_id : String
  pub identity : Identity
  pub type : String
  pub timestamp : String
  pub owner_epoch : ℕ
  pub expected_head : Option String
  pub payload : Json

pub data Content : Type 0 where
  unsafe_file invalid_json : Content
  stored : Event → Content

abbrev pub Directory : Type 0
Directory = List (ℕ × Content)

pub data JournalError : Type 0 where
  corrupt_file corrupt_json corrupt_sequence : ℕ → JournalError
  corrupt_chain corrupt_payload corrupt_hash corrupt_identity : ℕ → JournalError
  other_identity : ℕ → JournalError
  stale_head : Option String → Option String → JournalError
  stale_epoch : ℕ → ℕ → JournalError
  epoch_not_positive another_writer : JournalError

-- The decimal text of a number, the lowest digit last.
decimal_from : ℕ → ℕ → Text → Text
decimal_from zero n digits = digits
decimal_from (suc fuel) n digits =
    let more = decimal_from fuel (n / 10) ((48 + n % 10) ∷ digits) in
    if ltb n 10 then (48 + n) ∷ digits else more

pub decimal : ℕ → Text
unfolding decimal_from
decimal n = decimal_from (suc n) n []

abbrev null_or_text : Option String → Json
null_or_text none = null
null_or_text (some s) = str (units s)

-- The object that is hashed and stored, with `schemaVersion`.
unfoldable pub body_json : EventBody → Json
unfolding decimal
body_json b = obj (
    field (units "schemaVersion") (str (units "1.0.0")) (
      field (units "eventId") (str (units b.event_id)) (
        field (units "projectId") (str b.project_id) (
          field (units "runId") (str b.run_id) (
            field (units "sequence") (num (decimal b.sequence)) (
              field (units "type") (str (units b.type)) (
                field (units "timestamp") (str (units b.timestamp)) (
                  field (units "ownerEpoch") (num (decimal b.owner_epoch)) (
                    field (units "previousHash") (null_or_text b.previous_hash) (
                      field (units "payloadHash") (str (units b.payload_hash))
                        (field (units "payload") b.payload end)))))))))))

pub identity_eq : Identity → Identity → Bool
identity_eq a b = if a.project_id == b.project_id then a.run_id == b.run_id else false

-- What the loop of `replay` carries from one file to the next: the index, `previousHash` and
-- `identity`.
pub record Cursor : Type 0 where
  pub index : ℕ
  pub previous : Option String
  pub seen : Option Identity

abbrev pub start : Cursor
start = record { index = 0; previous = none; seen = none }

abbrev pub advance : Cursor → Event → Cursor
advance c e = record {
  index = c.index + 1;
  previous = some e.hash;
  seen = some (or_else c.seen e.identity);
}

abbrev read_event : ℕ → Content → Result JournalError Event
read_event name unsafe_file = err (corrupt_file name)
read_event name invalid_json = err (corrupt_json name)
read_event name (stored e) = ok e

-- `this.identity !== undefined && …`.
pub is_other : Option Identity → Identity → Bool
is_other none i = false
is_other (some bound) i = not (identity_eq i bound)

module _ (sha256_text : Text → String) (bound : Option Identity) where
  -- One round of the loop of `replay`.
  pub check : Cursor → ℕ → Content → Result JournalError Event
  check c name content = do
    e ← read_event name content
    refuse (not (e.sequence == c.index + 1) || not (name == c.index + 1)) (corrupt_sequence name)
    refuse (not (e.previous_hash == c.previous)) (corrupt_chain e.sequence)
    refuse (not (sha256_json sha256_text e.payload == e.payload_hash)) (corrupt_payload e.sequence)
    refuse (not (sha256_json sha256_text (body_json e.body) == e.hash)) (corrupt_hash e.sequence)
    refuse (not (identity_eq e.identity (or_else c.seen e.identity))) (corrupt_identity e.sequence)
    refuse (is_other bound e.identity) (other_identity e.sequence)
    ok e

  pub replay_from : Cursor → Directory → Result JournalError (List Event)
  replay_from c [] = ok []
  replay_from c ((name, content) ∷ files) = do
    e ← check c name content
    rest ← replay_from (advance c e) files
    ok (e ∷ rest)

  unfoldable pub replay : Directory → Result JournalError (List Event)
  replay files = replay_from start files

  -- `append` up to the write: the event that the writer is about to publish.
  pub prepare_after : AppendEventInput → List Event → Result JournalError Event
  prepare_after input events = do
    let head = Option.map (λ (e : Event). e.hash) (last? events)
    refuse (not (input.expected_head == head)) (stale_head input.expected_head head)
    let minimum = or_else (Option.map (λ (e : Event). e.owner_epoch) (last? events)) 0
    refuse (ltb input.owner_epoch minimum) (stale_epoch minimum input.owner_epoch)
    refuse (ltb input.owner_epoch 1) epoch_not_positive
    let body : EventBody = record {
      event_id = input.event_id;
      identity = input.identity;
      sequence = length events + 1;
      type = input.type;
      timestamp = input.timestamp;
      owner_epoch = input.owner_epoch;
      previous_hash = head;
      payload_hash = sha256_json sha256_text input.payload;
      payload = input.payload;
    }
    ok (record { body = body; hash = sha256_json sha256_text (body_json body) })

  pub prepare : AppendEventInput → Directory → Result JournalError Event
  prepare input files = do events ← replay files; prepare_after input events

-- The file of a name that is not there yet, in its place in the listing.
pub add_file : ℕ → Content → Directory → Directory
add_file name content [] = (name, content) ∷ []
add_file name content ((n, c) ∷ files) =
    let later = add_file name content files in
    if ltb name n then (name, content) ∷ (n, c) ∷ files else (n, c) ∷ later

pub has_file : ℕ → Directory → Bool
has_file name [] = false
has_file name ((n, c) ∷ files) = n == name || has_file name files

-- The write of `append`, which refuses to overwrite.
pub publish : Event → Directory → Result JournalError Event × Directory
unfolding add_file has_file
publish e files =
    if has_file e.sequence files
    then (err another_writer, files)
    else (ok e, add_file e.sequence (stored e) files)

publish_prepared : Result JournalError Event → Directory → Result JournalError Event × Directory
publish_prepared (ok e) files = publish e files
publish_prepared (err x) files = (err x, files)

module _ (sha256_text : Text → String) (bound : Option Identity) where
  pub append : AppendEventInput → Directory → Result JournalError Event × Directory
  unfolding publish_prepared
  append input files = publish_prepared (prepare sha256_text bound input files) files

  unfoldable pub head : Directory → Result JournalError (Option String)
  head files = do
    events ← replay sha256_text bound files
    ok (Option.map (λ (e : Event). e.hash) (last? events))
