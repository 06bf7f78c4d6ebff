-- ===== src/Kernel/Journal/Tests.antt =====
-- A journal that two writers append to, with one digest for every text.
use apex_vnext.Common.{String, ◌≡◌, ◌≢◌, refl, [], ◌∷◌, none, some, ok, err, arith, inl, inr, ◌↔◌}
use apex_vnext.Kernel.Canonical.{Text, null, str, units, sha256_json}
use apex_vnext.Kernel.Journal.{
  Identity, Event, AppendEventInput, stored, invalid_json, Directory, start, replay, replay_from,
  check, prepare_after, prepare, append, publish, head, another_writer, corrupt_identity,
  corrupt_json, stale_head, decimal,
}
use apex_vnext.Kernel.Journal.Replay.{replay-ok_iff, listing, Chain}
use apex_vnext.Kernel.Journal.Append.{event_of, append_then_replay}
use apex_vnext.Kernel.Journal.Conflicts.{one_writer_wins, append_foreign_breaks}

abbrev digest_of : Text → String
digest_of t = "digest"

abbrev run_1 : Identity
run_1 = record { project_id = units "p"; run_id = units "r1" }

abbrev run_2 : Identity
run_2 = record { project_id = units "p"; run_id = units "r2" }

abbrev first_input : AppendEventInput
first_input = record {
  event_id = "e1";
  identity = run_1;
  type = "task";
  timestamp = "t1";
  owner_epoch = 1;
  expected_head = none;
  payload = str (units "a");
}

abbrev other_input : AppendEventInput
other_input = record first_input { event_id = "e2"; payload = null }

abbrev foreign_input : AppendEventInput
foreign_input = record first_input {
  event_id = "e3";
  identity = run_2;
  expected_head = some "digest";
}

abbrev first_event : Event
first_event = event_of digest_of first_input []

abbrev one_event : Directory
one_event = (1, stored first_event) ∷ []

decimal_runs : decimal 120 ≡ units "120"
unfolding decimal
decimal_runs = refl

empty_replays : replay digest_of (some run_1) [] ≡ ok []
unfolding replay replay_from
empty_replays = refl

unbound_replays : replay digest_of none [] ≡ ok []
unfolding replay replay_from
unbound_replays = refl

bad_file : replay digest_of none ((1, invalid_json) ∷ []) ≡ err (corrupt_json 1)
unfolding replay replay_from check
bad_file = refl

first_appends :
    (append digest_of (some run_1) first_input [] ≡ (ok first_event, one_event))
    × (replay digest_of (some run_1) one_event ≡ ok (first_event ∷ []))
    × (head digest_of (some run_1) one_event ≡ ok (some "digest"))
unfolding sha256_json
first_appends =
    append_then_replay digest_of (some run_1) first_input [] [] empty_replays tt (inr refl) refl
      (omega arith) (omega arith)

stale_appends :
    append digest_of none (record first_input { expected_head = some "x" }) []
    ≡ (err (stale_head (some "x") none), [])
unfolding append prepare prepare_after replay replay_from
stale_appends = refl

append_then_replay_example :
    (append digest_of none first_input [] ≡ (ok first_event, one_event))
    × (replay digest_of none one_event ≡ ok (first_event ∷ []))
    × (head digest_of none one_event ≡ ok (some "digest"))
unfolding sha256_json
append_then_replay_example =
    append_then_replay digest_of none first_input [] [] unbound_replays tt (inl refl) refl
      (omega arith) (omega arith)

first_prepares : prepare digest_of none first_input [] ≡ ok first_event
unfolding prepare prepare_after replay replay_from
first_prepares = refl

other_prepares : prepare digest_of none other_input [] ≡ ok (event_of digest_of other_input [])
unfolding prepare prepare_after replay replay_from
other_prepares = refl

replay-ok_iff_example :
    (replay digest_of none one_event ≡ ok (first_event ∷ []))
    ↔ ((one_event ≡ listing 0 (first_event ∷ [])) × Chain digest_of none start (first_event ∷ []))
replay-ok_iff_example = replay-ok_iff digest_of none one_event (first_event ∷ [])

one_writer_wins_example :
    let files' = (publish first_event []).1 in
    publish (event_of digest_of other_input []) files' ≡ (err another_writer, files')
one_writer_wins_example =
    one_writer_wins digest_of none first_input other_input [] [] first_event
      (event_of digest_of other_input []) unbound_replays first_prepares other_prepares

runs_differ : run_1 ≢ run_2
runs_differ = λ p. ground (arith, p)

append_foreign_breaks_example :
    let (r, files') = append digest_of none foreign_input one_event in
    (r ≡ ok (event_of digest_of foreign_input (first_event ∷ [])))
    × (replay digest_of none files' ≡ err (corrupt_identity 2))
unfolding sha256_json
append_foreign_breaks_example =
    append_foreign_breaks digest_of none foreign_input one_event first_event []
      append_then_replay_example.1 runs_differ refl (omega arith) (omega arith)
