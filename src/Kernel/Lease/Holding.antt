-- ===== src/Kernel/Lease/Holding.antt =====
-- A live lease excludes everybody but its holder, and a free one is given.
use apex_vnext.Common.{◌<◌, ◌≡◌, ◌≢◌, some, ok, arith, eq_iff, ◌⊎◌, List, [], ◌∷◌, All}
use apex_vnext.Kernel.Lease.{
  LeaseRecord, Disk, perform, Op, acquire_op, acquire_at_op, heartbeat_op, release_op,
}
use apex_vnext.Kernel.Lease.Fencing.{run}

-- A call that the holder of `l` does not make itself: it tries to take the lease before `l` expires,
-- or renews or releases under another name or epoch.
abbrev pub IsForeign : LeaseRecord → Op → Type 0
IsForeign l (acquire_op o ttl now) = now < l.expires_at
IsForeign l (acquire_at_op o e ttl now) = now < l.expires_at
IsForeign l (heartbeat_op o e ttl c now) = (o ≢ l.owner_id) ⊎ (e ≢ l.owner_epoch)
IsForeign l (release_op o e c now) = (o ≢ l.owner_id) ⊎ (e ≢ l.owner_epoch)

perform-foreign :
    (l : LeaseRecord) (op : Op) (disk : Disk)
    → IsForeign l op
    → disk.lease ≡ some l
    → ((perform op disk).1.lease ≡ some l) × ((x : LeaseRecord) → (perform op disk).0 ≢ ok x)
unfolding perform
perform-foreign l (acquire_op o ttl now) disk f h = (ground arith, λ x e. ground arith)
perform-foreign l (acquire_at_op o e ttl now) disk f h = (ground arith, λ x e. ground arith)
perform-foreign l (heartbeat_op o e ttl c now) disk f h =
    (ground (arith, eq_iff l.owner_id o), λ x e. ground (arith, eq_iff l.owner_id o))
perform-foreign l (release_op o e c now) disk f h =
    (ground (arith, eq_iff l.owner_id o), λ x e. ground (arith, eq_iff l.owner_id o))

-- Whatever others call before a lease expires, all their calls fail and the lease stays as it was
-- written.
pub held_excludes :
    (l : LeaseRecord) (ops : List Op) (disk : Disk)
    → disk.lease ≡ some l
    → All (IsForeign l) ops
    → ((run ops disk).lease ≡ some l)
      × ((op : Op) → IsForeign l op → (x : LeaseRecord) → (perform op (run ops disk)).0 ≢ ok x)
held_excludes l [] disk h f = (h, λ op foreign. (perform-foreign l op disk foreign h).1)
held_excludes l (op ∷ ops) disk h (f, fs) =
    held_excludes l ops (perform op disk).1 (perform-foreign l op disk f h).0 fs
