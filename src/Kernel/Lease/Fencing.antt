-- ===== src/Kernel/Lease/Fencing.antt =====
-- Owner epochs fence: they never fall, and an owner of an older epoch can do nothing more.
use apex_vnext.Common.{ℕ, ◌+◌, ◌≤◌, ◌<◌, String, ◌≡◌, ◌≢◌, some, ok, arith, List, [], ◌∷◌}
use apex_vnext.Kernel.Lease.{
  LeaseRecord, Disk, epoch_of, acquire, heartbeat, release, perform, Op, acquire_op, acquire_at_op,
  heartbeat_op, release_op,
}

abbrev pub run : List Op → Disk → Disk
run [] disk = disk
run (op ∷ ops) disk = run ops (perform op disk).1

perform-epoch_mono :
    (op : Op) (disk : Disk) → epoch_of disk.lease ≤ epoch_of (perform op disk).1.lease
unfolding perform
perform-epoch_mono (acquire_op o ttl now) disk = ground arith
perform-epoch_mono (acquire_at_op o e ttl now) disk = ground arith
perform-epoch_mono (heartbeat_op o e ttl c now) disk = ground arith
perform-epoch_mono (release_op o e c now) disk = ground arith

-- Over any sequence of calls, failing or not, the epoch on disk never falls.
run-epoch_mono : (ops : List Op) (disk : Disk) → epoch_of disk.lease ≤ epoch_of (run ops disk).lease
run-epoch_mono [] disk = omega arith
run-epoch_mono (op ∷ ops) disk =
    omega (arith, perform-epoch_mono op disk, run-epoch_mono ops (perform op disk).1)

older_heartbeat :
    (disk : Disk) (o : String) (e ttl c now : ℕ) (l : LeaseRecord)
    → e < epoch_of disk.lease
    → (heartbeat o e ttl c now disk).0 ≢ ok l
unfolding heartbeat
older_heartbeat disk o e ttl c now l h p = ground arith

older_release :
    (disk : Disk) (o : String) (e c now : ℕ) (l : LeaseRecord)
    → e < epoch_of disk.lease
    → (release o e c now disk).0 ≢ ok l
unfolding release
older_release disk o e c now l h p = ground arith

acquire-epoch :
    (disk : Disk) (o : String) (ttl now : ℕ) (l : LeaseRecord)
    → (acquire o ttl now disk).0 ≡ ok l
    → (l.owner_epoch ≡ epoch_of disk.lease + 1) × ((acquire o ttl now disk).1.lease ≡ some l)
unfolding acquire
acquire-epoch disk o ttl now l h = ground arith

-- Once a call of `acquire` has succeeded, the new epoch is above every epoch used before, and from
-- then on, whatever calls follow, no call that names an older epoch renews or releases the lease.
pub acquire_fences :
    (disk : Disk) (o : String) (ttl now : ℕ) (l : LeaseRecord) (ops : List Op)
    → (acquire o ttl now disk).0 ≡ ok l
    → let after = run ops (acquire o ttl now disk).1 in
      (epoch_of disk.lease < l.owner_epoch)
      × ((o' : String) (e ttl' c t : ℕ) (x : LeaseRecord)
          → e < l.owner_epoch
          → ((heartbeat o' e ttl' c t after).0 ≢ ok x) × ((release o' e c t after).0 ≢ ok x))
acquire_fences disk o ttl now l ops h =
    let (bumped, written) = acquire-epoch disk o ttl now l h in
    let after : Disk = run ops (acquire o ttl now disk).1 in
    let above : l.owner_epoch ≤ epoch_of after.lease = omega (
      arith,
      ground_epoch (acquire o ttl now disk).1 l written,
      run-epoch_mono ops (acquire o ttl now disk).1,
    ) in
    (
      omega arith,
      λ o' e ttl' c t x older. (
        older_heartbeat after o' e ttl' c t x (omega arith),
        older_release after o' e c t x (omega arith),
      ),
    )
  where
    ground_epoch :
        (d : Disk) (l : LeaseRecord) → d.lease ≡ some l → l.owner_epoch ≡ epoch_of d.lease
    ground_epoch d l e = ground arith
