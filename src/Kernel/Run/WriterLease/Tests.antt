-- ===== src/Kernel/Run/WriterLease/Tests.antt =====
-- Two worktrees of one run.
use apex_vnext.Common.{ℕ, ◌≡◌, ◌≢◌, refl, [], none, ok, err, arith, ne_of_beq}
use apex_vnext.Kernel.Canonical.{Text, units, text_Eq}
use apex_vnext.Kernel.Run.WriterLease.{
  WriterOwner, RunWriterLease, absent, no_json, stored_lease, stored_of, writer_conflict,
  unreadable_lease, read_writer_lease, granted, contended, failed, mutation_busy,
  acquire_writer_lease, assert_writer_available, release_writer_lease,
}
use apex_vnext.Kernel.Run.WriterLease.Exclusion.{
  IsLease, live_lease_excludes, clock_set_back_locks_out,
}

abbrev owner : Text → WriterOwner
owner path = record {
  workspace_path = path;
  host = units "h";
  pid = 7;
  session_id = none;
  new_id = units "s";
}

abbrev lease : RunWriterLease
lease = record {
  workspace_path = units "/a";
  host = units "h";
  pid = 7;
  session_id = units "s";
  created_at = 1000;
  expires_at = 121000;
}

abbrev as_given : Text → Text
as_given path = path

first_acquires :
    acquire_writer_lease as_given granted (owner (units "/a")) 120000 1000 absent
    ≡ (ok lease, stored_lease (stored_of lease))
unfolding acquire_writer_lease read_writer_lease
first_acquires = refl

broken_file : assert_writer_available as_given (units "/a") 5 no_json ≡ err unreadable_lease
unfolding assert_writer_available read_writer_lease
broken_file = refl

busy_without_lease :
    (acquire_writer_lease as_given contended (owner (units "/a")) 120000 1000 absent).0
    ≡ err mutation_busy
unfolding acquire_writer_lease read_writer_lease
busy_without_lease = refl

path_given : units "/a" ≢ []
path_given = ne_of_beq (units "/a") [] refl

host_given : units "h" ≢ []
host_given = ne_of_beq (units "h") [] refl

session_given : units "s" ≢ []
session_given = ne_of_beq (units "s") [] refl

lease-IsLease : IsLease lease
lease-IsLease = record {
  path = path_given;
  host = host_given;
  session = session_given;
  pid = omega arith;
  ordered = omega arith;
}

others : as_given (units "/a") ≢ as_given (units "/b")
others = ne_of_beq (units "/a") (units "/b") refl

live_lease_excludes_example :
    let file = stored_lease (stored_of lease) in
    let e = writer_conflict (units "/a") 121000 in
    (acquire_writer_lease as_given granted (owner (units "/b")) 120000 5000 file ≡ (err e, file))
    × (acquire_writer_lease as_given contended (owner (units "/b")) 120000 5000 file
        ≡ (err e, file))
    × ((acquire_writer_lease as_given failed (owner (units "/b")) 120000 5000 file).1 ≡ file)
    × (assert_writer_available as_given (units "/b") 5000 file ≡ err e)
    × (release_writer_lease as_given (units "/b") 5000 file ≡ (err e, file))
live_lease_excludes_example =
    live_lease_excludes as_given lease lease-IsLease (owner (units "/b")) failed 120000 5000
      (omega arith) others

abbrev late_lease : RunWriterLease
late_lease = record lease { created_at = 900000; expires_at = 1020000 }

late-IsLease : IsLease late_lease
late-IsLease = record {
  path = path_given;
  host = host_given;
  session = session_given;
  pid = omega arith;
  ordered = omega arith;
}

clock_set_back_locks_out_example :
    let (r, file) =
      acquire_writer_lease as_given granted
        (owner (units "/a"))
        120000
        5000
        (stored_lease (stored_of late_lease)) in
    ((x : RunWriterLease) × (r ≡ ok x))
    × ((o' : WriterOwner) (ttl' t : ℕ)
        → (acquire_writer_lease as_given granted o' ttl' t file ≡ (err unreadable_lease, file))
          × (release_writer_lease as_given o'.workspace_path t file ≡ (err unreadable_lease, file)))
clock_set_back_locks_out_example =
    clock_set_back_locks_out as_given late_lease late-IsLease (owner (units "/a")) 120000 5000 refl
      (omega arith)
