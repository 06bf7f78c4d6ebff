-- ===== src/Kernel/Lock/Contender.antt =====
-- `DirectoryLock.acquire` and `release` of packages/kernel/src/directory-lock.ts, as the states
-- between two calls of the file system, and the processes that run them in any order.
use apex_vnext.Common.{
  ℕ, Bool, true, false, ◌||◌, [], ◌∷◌, Option, none, some, ltb, ◌==◌, nat_Eq, string_Eq, ◌≡◌,
  if◌then◌else◌, String,
}
use apex_vnext.Kernel.Canonical.{Text, Json, text_Eq}
use apex_vnext.Kernel.Lock.{
  LockMetadata, DirectoryStat, Generation, LockDisk, Dead, is_dead, owner_may_be_alive,
  lock_published, publish_lock, release_lock, confirms, retire,
}

-- Where an acquisition stands. The Boolean is true in the inner loop, which waits for a live owner.
-- `trying` is before the first check of `acquireLock`, `staged` before its rename, `contended` after
-- it returned false, `stale` after the snapshot was found expired with a dead owner, `confirmed`
-- after the second reading, `waiting` at the head of the inner loop, `settling` behind that loop.
pub data Phase : Type 0 where
  trying staged contended : Bool → Phase
  stale confirmed : Bool → Generation → Phase
  waiting settling holding leaving parted failed : Phase

-- What a step reads besides the disk: the clock, whether `onContention` returned an error, the
-- deadline test of the inner loop, and the stat that a published directory gets.
pub record Reading : Type 0 where
  pub now : ℕ
  pub contention : Bool
  pub deadline_passed : Bool
  pub stat : DirectoryStat

-- The token in the lock is the one of this acquisition.
unfoldable pub is_mine : LockMetadata → LockDisk → Bool
is_mine me d = elim d.lock [ none ↦ false | some g ↦ g.metadata.token == me.token ]

unfoldable pub after_publish : Bool → Bool → Phase
after_publish false true = holding
after_publish true true = settling
after_publish waited false = contended waited

-- The generation that was read is waited for, or is stale.
unfoldable pub judge : LockMetadata → Dead → ℕ → Bool → Generation → Phase
judge me dead now waited g =
    if ltb now g.metadata.expires_at || owner_may_be_alive me.host dead g.metadata
    then waiting
    else stale waited g

-- `retireStaleLock` returned true, or false.
unfoldable pub after_retire : Bool → Bool → Phase
after_retire false true = trying false
after_retire false false = failed
after_retire true _ = waiting

unfoldable pub read_phase : LockMetadata → Dead → ℕ → Bool → Option Generation → Phase
unfolding judge
read_phase me dead now false none = trying false
read_phase me dead now true none = waiting
read_phase me dead now waited (some g) = judge me dead now waited g

module _ (digest : Json → String) (iso : ℕ → Text) where
  -- One call of the file system by an acquisition with the metadata `me`, with the branch that
  -- follows it. `holding` goes on by `leave`.
  unfoldable pub advance_phase : LockMetadata → Dead → Reading → LockDisk → Phase → Phase × LockDisk
  unfolding read_phase after_publish after_retire
  advance_phase me dead r d (trying waited) =
      (if lock_published d then contended waited else staged waited, d)
  advance_phase me dead r d (staged waited) =
      let (published, d') = publish_lock (record { metadata = me; stat = r.stat }) d in
      (after_publish waited published, d')
  advance_phase me dead r d (contended waited) = (read_phase me dead r.now waited d.lock, d)
  advance_phase me dead r d (stale waited g) =
      (if confirms digest iso g d then confirmed waited g else after_retire waited false, d)
  advance_phase me dead r d (confirmed waited g) =
      let (retired, d') = retire digest iso g d in (after_retire waited retired, d')
  advance_phase me dead r d waiting =
      (if r.contention then failed else if r.deadline_passed then settling else trying true, d)
  advance_phase me dead r d settling = (if is_mine me d then holding else failed, d)
  advance_phase me dead r d holding = (holding, d)
  advance_phase me dead r d leaving = (parted, release_lock d)
  advance_phase me dead r d parted = (parted, d)
  advance_phase me dead r d failed = (failed, d)

-- `release`: the reading of the lock, before the rename.
unfoldable pub leave : LockMetadata → LockDisk → Phase
leave me d = if is_mine me d then leaving else parted

-- The acquisitions by number, each with the phase that it stands in.
pub record LockSystem : Type 0 where
  pub disk : LockDisk
  pub dead : Dead
  pub phase : ℕ → Phase

unfoldable pub update : (ℕ → Phase) → ℕ → Phase → ℕ → Phase
update f i p j = if i == j then p else f j

-- `who` gives the metadata of each acquisition. A process that has ended makes no step, and its
-- process id is not given to another one.
module _ (digest : Json → String) (iso : ℕ → Text) (who : ℕ → LockMetadata) where
  unfoldable pub step : ℕ → Reading → LockSystem → LockSystem
  step i r s =
      let (p, d) = advance_phase digest iso (who i) s.dead r s.disk (s.phase i) in
      record s { disk = d; phase = update s.phase i p }

  pub data Step (s : LockSystem) : LockSystem → Type 0 where
    move :
        (i : ℕ) (r : Reading)
        → is_dead (who i).host (who i).pid s.dead ≡ false
        → Step s (step i r s)
    let_go :
        (i : ℕ)
        → is_dead (who i).host (who i).pid s.dead ≡ false
        → s.phase i ≡ holding
        → Step s (record s { phase = update s.phase i (leave (who i) s.disk) })
    crash : (host : Text) (pid : ℕ) → Step s (record s { dead = (host, pid) ∷ s.dead })

  -- No lock at the path, and every acquisition before its first call.
  abbrev pub started : LockSystem
  started = record {
    disk = record { lock = none; tombstones = [] };
    dead = [];
    phase = λ i. trying false;
  }

  pub data Reach : LockSystem → Type 0 where
    start : Reach started
    later : {s t : LockSystem} → Reach s → Step s t → Reach t
