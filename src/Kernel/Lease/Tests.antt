-- ===== src/Kernel/Lease/Tests.antt =====
-- Runs of lease-store.ts: one owner takes the lease, another one waits for its end.
use apex_vnext.Common.{
  ne_of_beq, string_Eq, ℕ, ◌<◌, String, ◌≡◌, ◌≢◌, refl, false, some, ok, err, arith, inl, List, [],
  ◌∷◌,
}
use apex_vnext.Kernel.Lease.{
  LeaseRecord, Disk, acquire, acquire_at_epoch, heartbeat, release, empty_disk, Op, acquire_op,
  release_op, perform, held_by, epoch_regress, stale_owner,
}
use apex_vnext.Kernel.Lease.Fencing.{run, acquire_fences}
use apex_vnext.Kernel.Lease.Holding.{IsForeign, held_excludes}

abbrev first_lease : LeaseRecord
first_lease = record { owner_id = "a"; owner_epoch = 1; acquired_at = 100; expires_at = 150 }

abbrev held_disk : Disk
held_disk = record { lease = some first_lease; locked = false }

first_acquire : acquire "a" 50 100 empty_disk ≡ (ok first_lease, held_disk)
unfolding acquire
first_acquire = refl

second_waits : acquire "b" 50 149 held_disk ≡ (err (held_by "a"), held_disk)
unfolding acquire
second_waits = refl

epoch_cannot_regress :
    (acquire_at_epoch "b" 0 50 200
      (record { lease = some (record first_lease { owner_epoch = 3 }); locked = false })).0
    ≢ ok first_lease
unfolding acquire_at_epoch
epoch_cannot_regress = λ p. ground (arith, p)

lower_epoch :
    (acquire_at_epoch "b" 2 50 200
      (record { lease = some (record first_lease { owner_epoch = 3 }); locked = false })).0
    ≡ err epoch_regress
unfolding acquire_at_epoch
lower_epoch = refl

stale_heartbeat : (heartbeat "b" 1 50 120 121 held_disk).0 ≡ err stale_owner
unfolding heartbeat
stale_heartbeat = refl

free_acquire : (acquire "a" 50 100 empty_disk).0 ≡ ok first_lease
unfolding acquire
free_acquire = refl

first_release : (release "a" 1 120 121 held_disk).0 ≡ ok (record first_lease { expires_at = 121 })
unfolding release
first_release = refl

abbrev some_ops : List Op
some_ops = acquire_op "b" 50 120 ∷ release_op "b" 1 120 121 ∷ []

acquire_fences_example :
    let after = run some_ops (acquire "a" 50 100 empty_disk).1 in
    (0 < 1)
    × ((o' : String) (e ttl' c t : ℕ) (x : LeaseRecord)
        → e < 1
        → ((heartbeat o' e ttl' c t after).0 ≢ ok x) × ((release o' e c t after).0 ≢ ok x))
acquire_fences_example = acquire_fences empty_disk "a" 50 100 first_lease some_ops free_acquire

other_name : ◌≢◌ {A = String} "b" "a"
other_name = ne_of_beq _ _ refl

a_is_named : (◌≢◌ {A = String} "a" "")
a_is_named = ne_of_beq _ _ refl

b_is_named : ◌≢◌ {A = String} "b" ""
b_is_named = ne_of_beq _ _ refl

held_excludes_example :
    ((run some_ops held_disk).lease ≡ some first_lease)
    × ((op : Op)
        → IsForeign first_lease op
        → (x : LeaseRecord) → (perform op (run some_ops held_disk)).0 ≢ ok x)
held_excludes_example =
    held_excludes first_lease some_ops held_disk refl (omega arith, (inl other_name, tt))
