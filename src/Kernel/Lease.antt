-- ===== src/Kernel/Lease.antt =====
-- packages/kernel/src/lease-store.ts. The state is what lies on disk: the lease file and the lock
-- file. Times are milliseconds; a call takes what each reading of the clock returns in it.
pub mod Fencing
pub mod Holding
mod Tests
use apex_vnext.Common.{
  ℕ, suc, ◌+◌, String, Bool, true, false, ◌||◌, Option, none, some, Result, ok, err, not, ltb, leb,
  ◌==◌, nat_Eq, string_Eq, if◌then◌else◌, refuse, ◌>>=◌, ◌>>◌,
}

pub record LeaseRecord : Type 0 where
  pub owner_id : String
  pub owner_epoch : ℕ
  pub acquired_at : ℕ
  pub expires_at : ℕ

pub data LeaseError : Type 0 where
  held_by : String → LeaseError
  epoch_not_positive epoch_regress owner_and_ttl_required lease_expired stale_owner : LeaseError
  update_in_progress : LeaseError

-- The lease file, absent or with a record, and whether the lock file is there.
pub record Disk : Type 0 where
  pub lease : Option LeaseRecord
  pub locked : Bool

-- `createLease`, with `acquiredAt` given.
pub create_lease : String → ℕ → ℕ → ℕ → ℕ → Result LeaseError LeaseRecord
create_lease owner_id owner_epoch ttl now acquired_at = do
  refuse (owner_id == "" || leb ttl 0) owner_and_ttl_required
  ok (record {
    owner_id = owner_id;
    owner_epoch = owner_epoch;
    acquired_at = acquired_at;
    expires_at = now + ttl;
  })

-- `previous !== null && Date.parse(previous.expiresAt) > now`: the holder, if there is one.
abbrev pub held : Option LeaseRecord → ℕ → Option LeaseRecord
held none now = none
held (some l) now = if ltb now l.expires_at then some l else none

abbrev refuse_held : Option LeaseRecord → Result LeaseError Unit
refuse_held none = ok tt
refuse_held (some l) = err (held_by l.owner_id)

abbrev pub epoch_of : Option LeaseRecord → ℕ
epoch_of none = 0
epoch_of (some l) = l.owner_epoch

-- `requireCurrent`, at the reading `now` of the clock.
pub require_current : Option LeaseRecord → String → ℕ → ℕ → Result LeaseError LeaseRecord
require_current none owner_id owner_epoch now = err lease_expired
require_current (some l) owner_id owner_epoch now = do
  refuse (leb l.expires_at now) lease_expired
  refuse (not (l.owner_id == owner_id) || not (l.owner_epoch == owner_epoch)) stale_owner
  ok l

-- What each operation writes to the lease file, from what it reads there.
pub next_acquire : Option LeaseRecord → String → ℕ → ℕ → Result LeaseError LeaseRecord
next_acquire previous owner_id ttl now = do
  refuse_held (held previous now)
  create_lease owner_id (epoch_of previous + 1) ttl now now

pub next_acquire_at_epoch : Option LeaseRecord → String → ℕ → ℕ → ℕ → Result LeaseError LeaseRecord
next_acquire_at_epoch previous owner_id owner_epoch ttl now = do
  refuse_held (held previous now)
  refuse (ltb owner_epoch 1) epoch_not_positive
  refuse (ltb owner_epoch (epoch_of previous)) epoch_regress
  create_lease owner_id owner_epoch ttl now now

pub next_heartbeat : Option LeaseRecord → String → ℕ → ℕ → ℕ → ℕ → Result LeaseError LeaseRecord
next_heartbeat previous owner_id owner_epoch ttl checked now = do
  current ← require_current previous owner_id owner_epoch checked
  create_lease owner_id current.owner_epoch ttl now current.acquired_at

pub next_release : Option LeaseRecord → String → ℕ → ℕ → ℕ → Result LeaseError LeaseRecord
next_release previous owner_id owner_epoch checked now = do
  current ← require_current previous owner_id owner_epoch checked
  ok (record current { expires_at = now })

-- The end of `withLock`: the record that the operation computed is written, and the lock file is
-- removed whether or not the operation threw.
settle : Disk → Result LeaseError LeaseRecord → Result LeaseError LeaseRecord × Disk
settle disk (ok l) = (ok l, record { lease = some l; locked = false })
settle disk (err e) = (err e, record { lease = disk.lease; locked = false })

-- `withLock`: the lock file is created if it is not there.
pub with_lock :
    (Option LeaseRecord → Result LeaseError LeaseRecord)
    → Disk
    → Result LeaseError LeaseRecord × Disk
unfolding settle
with_lock op disk =
    if disk.locked then (err update_in_progress, disk) else settle disk (op disk.lease)

unfoldable pub acquire : String → ℕ → ℕ → Disk → Result LeaseError LeaseRecord × Disk
unfolding with_lock next_acquire create_lease
acquire owner_id ttl now = with_lock (λ previous. next_acquire previous owner_id ttl now)

unfoldable pub acquire_at_epoch : String → ℕ → ℕ → ℕ → Disk → Result LeaseError LeaseRecord × Disk
unfolding with_lock next_acquire_at_epoch create_lease
acquire_at_epoch owner_id owner_epoch ttl now =
    with_lock (λ previous. next_acquire_at_epoch previous owner_id owner_epoch ttl now)

unfoldable pub heartbeat : String → ℕ → ℕ → ℕ → ℕ → Disk → Result LeaseError LeaseRecord × Disk
unfolding with_lock next_heartbeat create_lease require_current
heartbeat owner_id owner_epoch ttl checked now =
    with_lock (λ previous. next_heartbeat previous owner_id owner_epoch ttl checked now)

unfoldable pub release : String → ℕ → ℕ → ℕ → Disk → Result LeaseError LeaseRecord × Disk
unfolding with_lock next_release require_current
release owner_id owner_epoch checked now =
    with_lock (λ previous. next_release previous owner_id owner_epoch checked now)

unfoldable pub current : Disk → ℕ → Option LeaseRecord
current disk now = held disk.lease now

abbrev pub empty_disk : Disk
empty_disk = record { lease = none; locked = false }

-- The operations as values, with the readings of the clock that a call makes.
pub data Op : Type 0 where
  acquire_op : String → ℕ → ℕ → Op
  acquire_at_op : String → ℕ → ℕ → ℕ → Op
  heartbeat_op : String → ℕ → ℕ → ℕ → ℕ → Op
  release_op : String → ℕ → ℕ → ℕ → Op

unfoldable pub perform : Op → Disk → Result LeaseError LeaseRecord × Disk
unfolding acquire acquire_at_epoch heartbeat release
perform (acquire_op owner ttl now) = acquire owner ttl now
perform (acquire_at_op owner epoch ttl now) = acquire_at_epoch owner epoch ttl now
perform (heartbeat_op owner epoch ttl checked now) = heartbeat owner epoch ttl checked now
perform (release_op owner epoch checked now) = release owner epoch checked now
