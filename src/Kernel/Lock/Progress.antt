-- ===== src/Kernel/Lock/Progress.antt =====
-- An acquisition of packages/kernel/src/directory-lock.ts that runs while the others pause.
use apex_vnext.Common.{
  ℕ, zero, suc, ◌≤◌, ◌<◌, ◌⊎◌, ◌≢◌, true, false, ◌≡◌, refl, none, some, String, includes, arith,
  string_Eq, eq_refl,
}
use apex_vnext.Kernel.Canonical.{Text, Json, text_eq_iff}
use apex_vnext.Kernel.Lock.{
  LockMetadata, Generation, LockDisk, Dead, is_dead, owner_may_be_alive, publish_lock, confirms,
  retire, recovery_id, owner_may_be_alive,
}
use apex_vnext.Kernel.Lock.Contender.{
  Phase, trying, waiting, holding, failed, Reading, is_mine, advance_phase, read_phase, judge,
  after_retire, after_publish,
}

module _ (digest : Json → String) (iso : ℕ → Text) (me : LockMetadata) (dead : Dead)
    (r : Reading) where
  -- The next `n` calls of the acquisition, with nobody else in between.
  pub alone : ℕ → Phase × LockDisk → Phase × LockDisk
  alone zero x = x
  alone (suc n) x = alone n (advance_phase digest iso me dead r x.1 x.0)

  -- An acquisition that runs alone takes a free lock in two calls of the file system, and one that
  -- waits for a lock that has become free in four, if its deadline has not passed and no contention
  -- is reported.
  takes_free_lock :
      (d : LockDisk)
      → d.lock ≡ none
      → r.contention ≡ false
      → r.deadline_passed ≡ false
      → ((alone 2 (trying false, d)).0 ≡ holding) × ((alone 4 (waiting, d)).0 ≡ holding)
  unfolding alone advance_phase publish_lock after_publish is_mine
  takes_free_lock d e c q = (ground arith, ground (arith, text_eq_iff me.token me.token))

  -- An acquisition that runs alone takes over, in six calls of the file system, the expired lock of a
  -- process of its own host that has ended, if no tombstone has the recovery id of that lock.
  pub takes_over_dead_owner :
      (d : LockDisk) (g : Generation)
      → d.lock ≡ some g
      → g.metadata.expires_at ≤ r.now
      → g.metadata.host ≡ me.host
      → is_dead g.metadata.host g.metadata.pid dead ≡ true
      → includes (recovery_id digest iso g) d.tombstones ≡ false
      → (alone 6 (trying false, d)).0 ≡ holding
  unfolding alone advance_phase publish_lock after_publish read_phase judge owner_may_be_alive
      confirms retire after_retire
  takes_over_dead_owner d g e x h gone new =
      ground (arith, text_eq_iff g.metadata.host me.host, eq_refl (recovery_id digest iso g))

  failed_stays : (n : ℕ) (d : LockDisk) → alone n (failed, d) ≡ (failed, d)
  unfolding alone advance_phase
  failed_stays zero d = refl
  failed_stays (suc n) d = failed_stays n d

  -- Where the lock of another acquisition has not expired, or its owner lives or runs on another
  -- host, an acquisition that is past its deadline fails and leaves the disk as it is.
  live_owner_refuses :
      (d : LockDisk) (g : Generation)
      → d.lock ≡ some g
      → (r.now < g.metadata.expires_at)
        ⊎ ((is_dead g.metadata.host g.metadata.pid dead ≡ false) ⊎ (g.metadata.host ≢ me.host))
      → g.metadata.token ≢ me.token
      → r.deadline_passed ≡ true
      → (n : ℕ) → 4 ≤ n
      → alone n (trying false, d) ≡ (failed, d)
  unfolding alone advance_phase read_phase judge owner_may_be_alive is_mine
  live_owner_refuses d g e keeps other q (suc (suc (suc (suc n)))) h = ground (
    arith,
    failed_stays n d,
    text_eq_iff g.metadata.host me.host,
    text_eq_iff g.metadata.token me.token,
  )
  live_owner_refuses d g e keeps other q _ h = absurd (omega arith)
