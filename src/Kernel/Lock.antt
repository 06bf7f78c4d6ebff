-- ===== src/Kernel/Lock.antt =====
-- packages/kernel/src/directory-lock.ts: the lock that processes share as a directory. The state is
-- what lies on disk: the generation at the lock path and the tombstones of the generations that were
-- taken over. Each function is one call of the file system, or a test on what it returned; times are
-- milliseconds.
pub mod Contender
pub mod Invariant
pub mod Moves
pub mod Exclusion
pub mod Progress
pub mod Share
mod Tests
use apex_vnext.Common.{
  ℕ, ◌+◌, Bool, true, false, ◌&&◌, ◌||◌, List, [], ◌∷◌, Option, none, some, Result, ok, err, not,
  ltb, leb, ◌==◌, nat_Eq, string_Eq, if◌then◌else◌, String, ◌>>=◌, includes,
}
use apex_vnext.Kernel.Canonical.{Text, Json, str, num, obj, Fields, end, field, units, text_Eq}
use apex_vnext.Kernel.Journal.{decimal}

pub record LockMetadata : Type 0 where
  pub token : Text
  pub pid : ℕ
  pub host : Text
  pub created_at : ℕ
  pub expires_at : ℕ

-- What `lstat` says of the lock directory, as texts.
pub record DirectoryStat : Type 0 where
  pub device : Text
  pub inode : Text
  pub changed_at : Text

-- One publication of the lock directory.
pub record Generation : Type 0 where
  pub metadata : LockMetadata
  pub stat : DirectoryStat

-- `lock` is the directory at the lock path; `tombstones` are the names under the retired root that
-- takeovers left.
pub record LockDisk : Type 0 where
  pub lock : Option Generation
  pub tombstones : List String

-- A JSON object found in the metadata file: a field is `none` where it has another type, or where
-- `Date.parse` gives no number.
pub record StoredMetadata : Type 0 where
  pub token : Option Text
  pub pid : Option ℕ
  pub host : Option Text
  pub created_at : Option ℕ
  pub expires_at : Option ℕ

abbrev is_named : Option Text → Bool
is_named none = false
is_named (some t) = not (t == [])

abbrev is_positive : Option ℕ → Bool
is_positive none = false
is_positive (some n) = ltb 0 n

-- `lockExpiry`; `none` is a value that is no object.
pub lock_expiry : Option StoredMetadata → Option ℕ
lock_expiry none = none
lock_expiry (some m) = elim m.created_at [
  | none ↦ none
  | some created ↦ elim m.expires_at [
    | none ↦ none
    | some expires ↦
        if is_named m.token && is_positive m.pid && is_named m.host && leb created expires
        then some expires
        else none
  ]
]

-- The object that `acquire` writes for a contender.
abbrev pub stored : LockMetadata → StoredMetadata
stored m = record {
  token = some m.token;
  pid = some m.pid;
  host = some m.host;
  created_at = some m.created_at;
  expires_at = some m.expires_at;
}

-- `LockMetadata` of a new acquisition.
abbrev pub new_metadata : Text → ℕ → Text → ℕ → ℕ → LockMetadata
new_metadata token pid host now ttl = record {
  token = token;
  pid = pid;
  host = host;
  created_at = now;
  expires_at = now + ttl;
}

-- The processes that have ended, each by its host and its id.
abbrev pub Dead : Type 0
Dead = List (Text × ℕ)

unfoldable pub is_dead : Text → ℕ → Dead → Bool
is_dead host pid [] = false
is_dead host pid ((h, p) ∷ dead) = (h == host && p == pid) || is_dead host pid dead

-- `ownerMayBealive`, asked on the host `here`: a signal reaches only processes of the same host.
unfoldable pub owner_may_be_alive : Text → Dead → LockMetadata → Bool
owner_may_be_alive here dead m = if m.host == here then not (is_dead m.host m.pid dead) else true

-- The file system operations on the lock path. `lockPublished`:
abbrev pub lock_published : LockDisk → Bool
lock_published d = elim d.lock [ none ↦ false | some _ ↦ true ]

-- `acquireLock` from its second check on: the rename of the staged directory onto the lock path.
unfoldable pub publish_lock : Generation → LockDisk → Bool × LockDisk
publish_lock g d = if lock_published d then (false, d) else (true, record d { lock = some g })

-- `releaseLock`: the rename moves whatever lies at the lock path.
unfoldable pub release_lock : LockDisk → LockDisk
release_lock d = record d { lock = none }

-- `digest` is `sha256Json`, `iso` is `toISOString`.
module _ (digest : Json → String) (iso : ℕ → Text) where
  -- The metadata file.
  pub metadata_json : LockMetadata → Json
  metadata_json m = obj (
      field (units "token") (str m.token) (
        field (units "pid") (num (decimal m.pid)) (
          field (units "host") (str m.host) (
            field (units "createdAt") (str (iso m.created_at))
              (field (units "expiresAt") (str (iso m.expires_at)) end)))))

  -- `recoveryId` of a snapshot.
  unfoldable pub recovery_id : Generation → String
  recovery_id g = digest (
      obj (
        field (units "metadataHash") (str (units (digest (metadata_json g.metadata)))) (
          field (units "device") (str g.stat.device) (
            field (units "inode") (str g.stat.inode)
              (field (units "changedAt") (num g.stat.changed_at) end)))))

  -- The second reading of `retireStaleLock`.
  unfoldable pub confirms : Generation → LockDisk → Bool
  confirms snapshot d = elim d.lock [
    | none ↦ false
    | some g ↦ recovery_id g == recovery_id snapshot
  ]

  -- `retireLock`: a rename of whatever lies at the lock path onto the tombstone of the snapshot, which
  -- fails where nothing lies there and where that tombstone is there already.
  unfoldable pub retire : Generation → LockDisk → Bool × LockDisk
  retire snapshot d = elim d.lock [
    | none ↦ (false, d)
    | some _ ↦
        if includes (recovery_id snapshot) d.tombstones
        then (false, d)
        else (true, record { lock = none; tombstones = recovery_id snapshot ∷ d.tombstones })
  ]
