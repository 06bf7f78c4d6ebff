-- ===== src/Kernel/Lock/Exclusion.antt =====
-- The lock of packages/kernel/src/directory-lock.ts holds one owner at a time, in any order of the
-- calls of any number of processes and with any of them ending at any point.
use apex_vnext.Common.{
  ℕ, Bool, true, false, ◌≡◌, inl, inr, Option, some, nat_Eq, string_Eq, String, arith, subst,
}
use apex_vnext.Kernel.Canonical.{Text, Json, text_Eq}
use apex_vnext.Kernel.Lock.{LockMetadata, Generation, LockDisk, Dead, is_dead, retire, recovery_id}
use apex_vnext.Kernel.Lock.Contender.{confirmed, LockSystem, Reach}
use apex_vnext.Kernel.Lock.Invariant.{
  holds, Alive, retire_again, retire-tombstone, IsFresh, Guarded, Fits,
}
use apex_vnext.Kernel.Lock.Moves.{Reach-Inv, Fits-holds}

module _ (digest : Json → String) (iso : ℕ → Text) (who : ℕ → LockMetadata) where
  Guarded-owner :
      (dead : Dead) (g : Generation) (d d' : LockDisk)
      → is_dead g.metadata.host g.metadata.pid dead ≡ true
      → Guarded digest iso who g d
      → retire digest iso g d ≡ (true, d')
      → (h : Generation) × (d.lock ≡ some h)
        × (recovery_id digest iso h ≡ recovery_id digest iso g)
        × (h.metadata ≡ g.metadata)
        × (is_dead h.metadata.host h.metadata.pid dead ≡ true)
  Guarded-owner dead g d d' gone (inl there) e = absurd (cc (retire_again digest iso g d there, e))
  Guarded-owner dead g d d' gone (inr (h, at, q, m)) e = (h, at, q, m, ground arith)

  -- Two acquisitions of living processes never hold the lock at once, in every state that any order
  -- of the calls of any number of acquisitions reaches, with clocks that read anything and processes
  -- that end at any point. No two acquisitions have one token or recovery id.
  pub mutual_exclusion :
      (fresh : IsFresh digest iso who) {s : LockSystem}
      → Reach digest iso who s
      → (i j : ℕ) → holds (s.phase i) ≡ true
      → Alive (who i) s.dead
      → holds (s.phase j) ≡ true
      → Alive (who j) s.dead
      → i ≡ j
  mutual_exclusion fresh {s} r i j hi ai hj aj =
      let inv = Reach-Inv digest iso who fresh r in
      let (g, at, mine) =
        Fits-holds digest iso who (who i) s.disk s.dead (s.phase i) hi ai (inv.fits i) in
      let (h, at', other) =
        Fits-holds digest iso who (who j) s.disk s.dead (s.phase j) hj aj (inv.fits j) in
      fresh.tokens i j (cc (at, at', mine, other))

  -- Takeover compares before it swaps: in every reachable state, the rename of an acquisition that has
  -- confirmed a generation succeeds only if the directory at the lock path still has the recovery id and
  -- the metadata of that generation, and the process that published it has ended; its tombstone then
  -- makes every later takeover under that recovery id fail.
  pub takeover_exact :
      (fresh : IsFresh digest iso who) {s : LockSystem}
      → Reach digest iso who s
      → (i : ℕ) (w : Bool) (g : Generation) (d : LockDisk) → s.phase i ≡ confirmed w g
      → retire digest iso g s.disk ≡ (true, d)
      → ((h : Generation) × (s.disk.lock ≡ some h)
          × (recovery_id digest iso h ≡ recovery_id digest iso g)
          × (h.metadata ≡ g.metadata)
          × (is_dead h.metadata.host h.metadata.pid s.dead ≡ true))
        × ((later_lock : Option Generation)
            → retire digest iso g (record d { lock = later_lock })
              ≡ (false, record d { lock = later_lock }))
  takeover_exact fresh {s} r i w g d at e = (
    Guarded-owner s.dead g s.disk d fits.0.0 fits.1 e,
    λ l. retire_again digest iso g _ (retire-tombstone digest iso g s.disk d e),
  )
    where
      fits : Fits digest iso who (who i) s.disk s.dead (confirmed w g)
      fits =
          subst (Fits digest iso who (who i) s.disk s.dead) at
            ((Reach-Inv digest iso who fresh r).fits i)
