-- ===== src/Kernel/Run/WriterLease/Exclusion.antt =====
-- Who may write, and what a lease file that cannot be read does.
use apex_vnext.Common.{
  ℕ, ◌+◌, ◌≤◌, ◌<◌, ◌≡◌, ◌≢◌, refl, true, [], ◌∷◌, Option, none, some, ok, err, arith, ◌⊎◌,
}
use apex_vnext.Kernel.Canonical.{Text, text_Eq, text_eq_iff}
use apex_vnext.Kernel.Run.WriterLease.{
  WriterOwner, RunWriterLease, LeaseFile, absent, stored_lease, writer_conflict, unreadable_lease,
  stored_of, Snapshot, lease_for, read_writer_lease, LockAttempt, granted, contended, failed,
  acquire_writer_lease, assert_writer_available, release_writer_lease,
}

-- A lease whose fields are all given, and which does not end before it was created.
pub record IsLease (l : RunWriterLease) : Type 0 where
  pub path : l.workspace_path ≢ []
  pub host : l.host ≢ []
  pub session : l.session_id ≢ []
  pub pid : 0 < l.pid
  pub ordered : l.created_at ≤ l.expires_at

nonempty-cons : (t : Text) → t ≢ [] → (c : ℕ) × (s : Text) × (t ≡ c ∷ s)
nonempty-cons [] h = absurd (h refl)
nonempty-cons (c ∷ s) h = (c, s, refl)

-- A lease that was written is read back.
pub read-stored :
    (l : RunWriterLease)
    → IsLease l
    → read_writer_lease (stored_lease (stored_of l))
      ≡ ok (
          some (record {
            workspace_path = l.workspace_path;
            created_at = l.created_at;
            expires_at = l.expires_at;
          }))
unfolding read_writer_lease
read-stored l h =
    let (c1, s1, e1) = nonempty-cons l.workspace_path h.path in
    let (c2, s2, e2) = nonempty-cons l.host h.host in
    let (c3, s3, e3) = nonempty-cons l.session_id h.session in
    ground (arith, e1, e2, e3, h.pid, h.ordered)

read_absent : read_writer_lease absent ≡ ok none
unfolding read_writer_lease
read_absent = refl

module _ (canonical : Text → Text) (l : RunWriterLease) (valid : IsLease l) where
  -- While a lease of another worktree has not expired, a worktree gets no lease, whatever becomes of
  -- its wait for the mutation lock, cannot release the lease, and is told that it may not write; the
  -- lease file stays as it is. If the lock is given, or stays taken, the error names the holder and
  -- the expiry.
  pub live_lease_excludes :
      (o : WriterOwner) (a : LockAttempt) (ttl now : ℕ)
      → now < l.expires_at
      → canonical l.workspace_path ≢ canonical o.workspace_path
      → let file = stored_lease (stored_of l) in
        let e = writer_conflict l.workspace_path l.expires_at in
        (acquire_writer_lease canonical granted o ttl now file ≡ (err e, file))
        × (acquire_writer_lease canonical contended o ttl now file ≡ (err e, file))
        × ((acquire_writer_lease canonical a o ttl now file).1 ≡ file)
        × (assert_writer_available canonical o.workspace_path now file ≡ err e)
        × (release_writer_lease canonical o.workspace_path now file ≡ (err e, file))
  unfolding acquire_writer_lease assert_writer_available release_writer_lease
  live_lease_excludes o a ttl now live other =
      let read = read-stored l valid in
      let apart = text_eq_iff (canonical l.workspace_path) (canonical o.workspace_path) in
      (
        ground (arith, read, apart),
        ground (arith, read, apart),
        elim a
            as (λ k.
              (acquire_writer_lease canonical k o ttl now (stored_lease (stored_of l))).1
              ≡ stored_lease (stored_of l)) [
                | granted ↦ ground (arith, read, apart)
                | contended ↦ refl
                | failed ↦ refl
              ],
        ground (arith, read, apart),
        ground (arith, read, apart),
      )

  -- The worktree that holds a lease renews it, expired or not: the new lease ends later by the time
  -- to live, counted from now, and keeps the time of its creation.
  holder_renews :
      (o : WriterOwner) (ttl now : ℕ)
      → canonical l.workspace_path ≡ canonical o.workspace_path
      → (x : RunWriterLease) × (acquire_writer_lease canonical granted o ttl now
            (stored_lease (stored_of l))
          ≡ (ok x, stored_lease (stored_of x)))
        × (x.workspace_path ≡ o.workspace_path)
        × (x.created_at ≡ l.created_at)
        × (x.expires_at ≡ now + ttl)
  unfolding acquire_writer_lease
  holder_renews o ttl now same =
      let read = read-stored l valid in
      let alike = text_eq_iff (canonical l.workspace_path) (canonical o.workspace_path) in
      let before : Option Snapshot = some (record {
        workspace_path = l.workspace_path;
        created_at = l.created_at;
        expires_at = l.expires_at;
      }) in
      (
        lease_for canonical o ttl now before,
        ground (arith, read, alike),
        refl,
        ground (arith, alike),
        refl,
      )

  -- The holder can release its lease at any time, and any worktree an expired one: the file is gone,
  -- and the next worktree that asks gets a lease from then on.
  release_lets_in :
      (path : Text) (now : ℕ) (o : WriterOwner) (ttl later : ℕ)
      → (canonical l.workspace_path ≡ canonical path) ⊎ (l.expires_at ≤ now)
      → (release_writer_lease canonical path now (stored_lease (stored_of l)) ≡ (ok true, absent))
        × ((x : RunWriterLease) × (acquire_writer_lease canonical granted o ttl later absent
              ≡ (ok x, stored_lease (stored_of x)))
            × (x.created_at ≡ later)
            × (x.expires_at ≡ later + ttl))
  unfolding release_writer_lease acquire_writer_lease
  release_lets_in path now o ttl later free =
      let read = read-stored l valid in
      let alike = text_eq_iff (canonical l.workspace_path) (canonical path) in
      (
        ground (arith, read, alike),
        (lease_for canonical o ttl later none, ground (arith, read_absent), refl, refl),
      )

read-stored_early :
    (l : RunWriterLease)
    → l.expires_at < l.created_at
    → read_writer_lease (stored_lease (stored_of l)) ≡ err unreadable_lease
unfolding read_writer_lease
read-stored_early l h = ground (arith, h)

-- A lease file that cannot be read stops every worktree, and stays.
unreadable_blocks :
    (canonical : Text → Text) (file : LeaseFile)
    → read_writer_lease file ≡ err unreadable_lease
    → (o : WriterOwner) (ttl t : ℕ)
    → (acquire_writer_lease canonical granted o ttl t file ≡ (err unreadable_lease, file))
      × (release_writer_lease canonical o.workspace_path t file ≡ (err unreadable_lease, file))
unfolding acquire_writer_lease release_writer_lease
unreadable_blocks canonical file h o ttl t = (ground (arith, h), ground (arith, h))

-- A renewal by the holder whose clock was set back to so early a time that the new lease would end
-- before it was created succeeds, and leaves a lease file that nobody can use: from then on no
-- worktree, the holder included, at any time, gets a lease or releases this one.
pub clock_set_back_locks_out :
    (canonical : Text → Text) (l : RunWriterLease)
    → IsLease l
    → (o : WriterOwner) (ttl now : ℕ) → canonical l.workspace_path ≡ canonical o.workspace_path
    → now + ttl < l.created_at
    → let (r, file) =
        acquire_writer_lease canonical granted o ttl now (stored_lease (stored_of l)) in
      ((x : RunWriterLease) × (r ≡ ok x))
      × ((o' : WriterOwner) (ttl' t : ℕ)
          → (acquire_writer_lease canonical granted o' ttl' t file ≡ (err unreadable_lease, file))
            × (release_writer_lease canonical o'.workspace_path t file
                ≡ (err unreadable_lease, file)))
clock_set_back_locks_out canonical l valid o ttl now same early =
    let (x, written, _, created, expires) = holder_renews canonical l valid o ttl now same in
    let broken = read-stored_early x (omega (arith, created, expires)) in
    rw written (
      (x, refl),
      λ o' ttl' t. unreadable_blocks canonical (stored_lease (stored_of x)) broken o' ttl' t,
    )
