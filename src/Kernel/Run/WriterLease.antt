-- ===== src/Kernel/Run/WriterLease.antt =====
-- The writer lease of packages/kernel/src/run-repository.ts: the worktree that may write to a run. The
-- state is the lease file. Times are milliseconds, and a call takes what it reads from the clock;
-- `canonical` is `canonicalWorktreePath`, which asks the file system.
pub mod Exclusion
mod Tests
use apex_vnext.Common.{
  ℕ, ◌+◌, Bool, true, false, ◌&&◌, [], ◌∷◌, Option, none, some, Result, ok, err, not, ◌==◌, nat_Eq,
  ltb, leb, if◌then◌else◌, ◌>>=◌, ◌>>◌,
}
use apex_vnext.Kernel.Canonical.{Text, text_Eq}

-- `RunWriterLeaseOwner` with its path resolved, and what the process adds to it: the host, the process
-- id, and the new id that stands in for a missing session id.
pub record WriterOwner : Type 0 where
  pub workspace_path : Text
  pub host : Text
  pub pid : ℕ
  pub session_id : Option Text
  pub new_id : Text

pub record RunWriterLease : Type 0 where
  pub workspace_path : Text
  pub host : Text
  pub pid : ℕ
  pub session_id : Text
  pub created_at : ℕ
  pub expires_at : ℕ

-- An object that lies in the file: a field is `none` where it has another type than the lease has, or
-- where `Date.parse` gives no number. A number that is no integer counts as another type, and a
-- negative one as 0.
pub record StoredLease : Type 0 where
  pub version : ℕ
  pub workspace_path : Option Text
  pub host : Option Text
  pub pid : Option ℕ
  pub session_id : Option Text
  pub created_at : Option ℕ
  pub expires_at : Option ℕ

pub data LeaseFile : Type 0 where
  absent : LeaseFile
  no_json no_object : LeaseFile
  stored_lease : StoredLease → LeaseFile

pub data WriterError : Type 0 where
  writer_conflict : Text → ℕ → WriterError
  unreadable_lease : WriterError
  mutation_busy lock_failed : WriterError

-- The object that is written for a lease.
abbrev pub stored_of : RunWriterLease → StoredLease
stored_of l = record {
  version = 1;
  workspace_path = some l.workspace_path;
  host = some l.host;
  pid = some l.pid;
  session_id = some l.session_id;
  created_at = some l.created_at;
  expires_at = some l.expires_at;
}

abbrev pub is_named : Option Text → Bool
is_named (some (c ∷ s)) = true
is_named _ = false

abbrev is_positive : Option ℕ → Bool
is_positive none = false
is_positive (some n) = ltb 0 n

-- The expiry, if both times are there and it is not before the creation.
abbrev ordered_expiry : Option ℕ → Option ℕ → Option ℕ
ordered_expiry (some created) (some expires) = if leb created expires then some expires else none
ordered_expiry _ _ = none

-- `writerLeaseExpiry`.
pub writer_lease_expiry : StoredLease → Option ℕ
writer_lease_expiry l =
    if (l.version == 1)
      && (is_named l.workspace_path
          && (is_positive l.pid && (is_named l.host && is_named l.session_id)))
    then ordered_expiry l.created_at l.expires_at
    else none

-- `RunWriterLeaseSnapshot`, with what the calls use of the metadata.
pub record Snapshot : Type 0 where
  pub workspace_path : Text
  pub created_at : ℕ
  pub expires_at : ℕ

abbrev text_or_empty : Option Text → Text
text_or_empty none = []
text_or_empty (some t) = t

abbrev number_or_0 : Option ℕ → ℕ
number_or_0 none = 0
number_or_0 (some n) = n

abbrev snapshot_of : StoredLease → Option ℕ → Result WriterError (Option Snapshot)
snapshot_of l none = err unreadable_lease
snapshot_of l (some expires_at) = ok (
    some (record {
      workspace_path = text_or_empty l.workspace_path;
      created_at = number_or_0 l.created_at;
      expires_at = expires_at;
    }))

-- `readWriterLease`.
pub read_writer_lease : LeaseFile → Result WriterError (Option Snapshot)
unfolding writer_lease_expiry
read_writer_lease absent = ok none
read_writer_lease no_json = err unreadable_lease
read_writer_lease no_object = err unreadable_lease
read_writer_lease (stored_lease l) = snapshot_of l (writer_lease_expiry l)

-- What becomes of the wait for the mutation lock: it is given, it stays taken (or the rename of the
-- lock fails as it does on Windows while another process has it open), or it fails otherwise.
pub data LockAttempt : Type 0 where
  granted contended failed : LockAttempt

module _ (canonical : Text → Text) where
  -- `sameWorkspace`.
  abbrev pub same_workspace : Text → Text → Bool
  same_workspace left right = canonical left == canonical right

  -- The conflict with a lease of another worktree that has not expired.
  pub conflict : Option Snapshot → ℕ → Text → Option WriterError
  conflict none now path = none
  conflict (some s) now path =
      if ltb now s.expires_at && not (same_workspace s.workspace_path path)
      then some (writer_conflict s.workspace_path s.expires_at)
      else none

  abbrev throw_if : Option WriterError → Result WriterError Unit
  throw_if none = ok tt
  throw_if (some e) = err e

  abbrev session_or_new : Option Text → Text → Text
  session_or_new none id = id
  session_or_new (some s) id = s

  -- A renewal by the same worktree keeps the time of the creation.
  abbrev created_or : Option Snapshot → Text → ℕ → ℕ
  created_or none path now = now
  created_or (some s) path now = if same_workspace s.workspace_path path then s.created_at else now

  pub lease_for : WriterOwner → ℕ → ℕ → Option Snapshot → RunWriterLease
  lease_for o ttl now existing = record {
    workspace_path = o.workspace_path;
    host = o.host;
    pid = o.pid;
    session_id = session_or_new o.session_id o.new_id;
    created_at = created_or existing o.workspace_path now;
    expires_at = now + ttl;
  }

  pub next_lease : WriterOwner → ℕ → ℕ → LeaseFile → Result WriterError RunWriterLease
  unfolding conflict lease_for
  next_lease o ttl now file = do
    existing ← read_writer_lease file
    throw_if (conflict existing now o.workspace_path)
    ok (lease_for o ttl now existing)

  abbrev write_lease :
      Result WriterError RunWriterLease → LeaseFile → Result WriterError RunWriterLease × LeaseFile
  write_lease (ok l) file = (ok l, stored_lease (stored_of l))
  write_lease (err e) file = (err e, file)

  abbrev conflict_or_busy : Option WriterError → WriterError
  conflict_or_busy none = mutation_busy
  conflict_or_busy (some e) = e

  -- `conflictFromPublishedLease` where the lock was not given: a lease that cannot be read leaves the
  -- error of the lock.
  pub contention_error : ℕ → LeaseFile → Text → WriterError
  unfolding conflict
  contention_error now file path = elim (read_writer_lease file) [
    | ok existing ↦ conflict_or_busy (conflict existing now path)
    | err e ↦ mutation_busy
  ]

  unfoldable pub acquire_writer_lease :
      LockAttempt → WriterOwner → ℕ → ℕ → LeaseFile → Result WriterError RunWriterLease × LeaseFile
  unfolding next_lease contention_error
  acquire_writer_lease granted o ttl now file = write_lease (next_lease o ttl now file) file
  acquire_writer_lease contended o ttl now file =
      (err (contention_error now file o.workspace_path), file)
  acquire_writer_lease failed o ttl now file = (err lock_failed, file)

  unfoldable pub assert_writer_available : Text → ℕ → LeaseFile → Result WriterError Unit
  unfolding conflict
  assert_writer_available path now file = do
    existing ← read_writer_lease file
    throw_if (conflict existing now path)

  abbrev remove_lease :
      Option Snapshot → Option WriterError → LeaseFile → Result WriterError Bool × LeaseFile
  remove_lease none c file = (ok false, file)
  remove_lease (some s) none file = (ok true, absent)
  remove_lease (some s) (some e) file = (err e, file)

  -- Under the mutation lock, which was given.
  unfoldable pub release_writer_lease : Text → ℕ → LeaseFile → Result WriterError Bool × LeaseFile
  unfolding conflict
  release_writer_lease path now file = elim (read_writer_lease file) [
    | ok existing ↦ remove_lease existing (conflict existing now path) file
    | err e ↦ (err e, file)
  ]
