-- ===== src/Kernel/Lock/Invariant.antt =====
-- What holds of every lock state that packages/kernel/src/directory-lock.ts reaches: the facts on the
-- disk that each phase rests on, and the calls of the file system that keep them.
use apex_vnext.Common.{
  ℕ, Bool, true, false, ◌≡◌, refl, sym, ◌≢◌, ◌⊎◌, inl, inr, none, some, ◌∷◌, ◌==◌, nat_Eq,
  string_Eq, String, includes, arith, Bool-cases, subst, eq_iff, ◌||◌, nat_eq_iff, beq_refl,
  ne_of_beq, eq_refl,
}
use apex_vnext.Kernel.Canonical.{Text, Json, text_Eq}
use apex_vnext.Kernel.Lock.{
  LockMetadata, Generation, LockDisk, Dead, is_dead, publish_lock, release_lock, retire,
  recovery_id,
}
use apex_vnext.Kernel.Lock.Contender.{Phase, stale, confirmed, holding, leaving, LockSystem, update}

-- The acquisition holds the lock, or is about to give it up.
abbrev pub holds : Phase → Bool
holds holding = true
holds leaving = true
holds _ = false

abbrev pub Alive : LockMetadata → Dead → Type 0
Alive me dead = is_dead me.host me.pid dead ≡ false

-- What a phase says of the disk and of the processes.
pub data Claim : Type 0 where
  nothing holder : Claim
  stale_of guards : Generation → Claim

abbrev pub claim : Phase → Claim
claim holding = holder
claim leaving = holder
claim (stale w g) = stale_of g
claim (confirmed w g) = guards g
claim _ = nothing

-- The generation of `me` lies at the lock path.
abbrev pub Lies : LockMetadata → LockDisk → Type 0
Lies me d = (g : Generation) × (d.lock ≡ some g) × (g.metadata ≡ me)

update_self : (f : ℕ → Phase) (j : ℕ) (p : Phase) → update f j p j ≡ p
unfolding update
update_self f j p = rw (beq_refl j)

update_other : (f : ℕ → Phase) (j : ℕ) (p : Phase) (i : ℕ) → (j == i) ≡ false → update f j p i ≡ f i
unfolding update
update_other f j p i h = rw h

pub or_false : (a b : Bool) → (a || b) ≡ false → (a ≡ false) × (b ≡ false)
or_false a b h = ground arith

pub some_injective : {g h : Generation} → some g ≡ some h → g ≡ h
some_injective e = cc

pub publish_free :
    (g : Generation) (d : LockDisk)
    → d.lock ≡ none
    → publish_lock g d ≡ (true, record d { lock = some g })
unfolding publish_lock
publish_free g d e = ground arith

pub publish_taken :
    (g c : Generation) (d : LockDisk) → d.lock ≡ some c → publish_lock g d ≡ (false, d)
unfolding publish_lock
publish_taken g c d e = ground arith

pub released : (d : LockDisk) → (release_lock d).lock ≡ none
unfolding release_lock
released d = refl

module _ (digest : Json → String) (iso : ℕ → Text) where
  -- A tombstone of the snapshot blocks its takeover.
  pub retire_again :
      (g : Generation) (d : LockDisk)
      → includes (recovery_id digest iso g) d.tombstones ≡ true
      → retire digest iso g d ≡ (false, d)
  unfolding retire
  retire_again g d h = ground arith

  pub retire_first :
      (g c : Generation) (d : LockDisk)
      → d.lock ≡ some c
      → includes (recovery_id digest iso g) d.tombstones ≡ false
      → retire digest iso g d
        ≡ (true, record { lock = none; tombstones = recovery_id digest iso g ∷ d.tombstones })
  unfolding retire
  retire_first g c d e h = ground arith

  pub retire-tombstone :
      (g : Generation) (d d' : LockDisk)
      → retire digest iso g d ≡ (true, d')
      → includes (recovery_id digest iso g) d'.tombstones ≡ true
  unfolding retire
  retire-tombstone g d d' e = ground (arith, eq_refl (recovery_id digest iso g))

module _ (digest : Json → String) (iso : ℕ → Text) (who : ℕ → LockMetadata) where
  -- No two acquisitions have one token, and no two have generations with one recovery id.
  pub record IsFresh : Type 0 where
    pub tokens : (i j : ℕ) → (who i).token ≡ (who j).token → i ≡ j
    pub no_collision :
        (i j : ℕ) (g h : Generation)
        → g.metadata ≡ who i
        → h.metadata ≡ who j
        → recovery_id digest iso g ≡ recovery_id digest iso h
        → i ≡ j

  abbrev pub Owned : Generation → Type 0
  Owned g = (k : ℕ) × (g.metadata ≡ who k)

  abbrev pub IsStale : Generation → Dead → Type 0
  IsStale g dead = (is_dead g.metadata.host g.metadata.pid dead ≡ true) × Owned g

  -- A confirmed generation still lies at the lock path, or its tombstone is there.
  abbrev pub Guarded : Generation → LockDisk → Type 0
  Guarded g d =
      (includes (recovery_id digest iso g) d.tombstones ≡ true)
      ⊎ ((h : Generation) × (d.lock ≡ some h)
          × (recovery_id digest iso h ≡ recovery_id digest iso g)
          × (h.metadata ≡ g.metadata))

  abbrev pub Meets : LockMetadata → LockDisk → Dead → Claim → Type 0
  Meets me d dead holder = Alive me dead → Lies me d
  Meets me d dead (stale_of g) = IsStale g dead
  Meets me d dead (guards g) = IsStale g dead × Guarded g d
  Meets me d dead nothing = Unit {0}

  abbrev pub Fits : LockMetadata → LockDisk → Dead → Phase → Type 0
  Fits me d dead p = Meets me d dead (claim p)

  pub record Inv (s : LockSystem) : Type 0 where
    pub owned : (g : Generation) → s.disk.lock ≡ some g → Owned g
    pub fits : (i : ℕ) → Fits (who i) s.disk s.dead (s.phase i)

  pub Fits-update :
      (d : LockDisk) (dead : Dead) (f : ℕ → Phase) (j : ℕ) (p : Phase)
      → Fits (who j) d dead p
      → ((i : ℕ) → i ≢ j → Fits (who i) d dead (f i))
      → (i : ℕ) → Fits (who i) d dead (update f j p i)
  Fits-update d dead f j p own others i = elim (Bool-cases (j == i)) [
    | inl same ↦
        let e : j ≡ i = (nat_eq_iff j i).0 same in
        subst (λ k. Fits (who k) d dead (update f j p k)) e
          (subst (Fits (who j) d dead) (sym (update_self f j p)) own)
    | inr other ↦
        subst (Fits (who i) d dead) (sym (update_other f j p i other))
          (others i (λ e. ne_of_beq j i other (sym e)))
  ]

  -- A publication where no lock lies.
  pub Meets-publish :
      (me : LockMetadata) (d : LockDisk) (dead : Dead) (p : Claim) (g : Generation)
      → d.lock ≡ none
      → Meets me d dead p
      → Meets me (record d { lock = some g }) dead p
  Meets-publish me d dead holder g e h = λ a. absurd (cc (e, (h a).1))
  Meets-publish me d dead (guards c) g e (s, inl t) = (s, inl t)
  Meets-publish me d dead (guards c) g e (s, inr l) = absurd (cc (e, l.1))
  Meets-publish me d dead (stale_of c) g e h = h
  Meets-publish me d dead nothing g e h = tt

  -- A takeover of the generation `h` under the recovery id of `c`.
  pub Meets-retire :
      (me : LockMetadata) (d : LockDisk) (dead : Dead) (p : Claim) (c h : Generation)
      → d.lock ≡ some h
      → recovery_id digest iso h ≡ recovery_id digest iso c
      → is_dead h.metadata.host h.metadata.pid dead ≡ true
      → Meets me d dead p
      → Meets me
          (record { lock = none; tombstones = recovery_id digest iso c ∷ d.tombstones })
          dead
          p
  Meets-retire me d dead holder c h e q gone k = λ a. absurd (ground (arith, k a))
  Meets-retire me d dead (guards g) c h e q gone (s, inl t) = (s, inl (ground arith))
  Meets-retire me d dead (guards g) c h e q gone (s, inr l) =
      (s, inl (ground (arith, eq_iff (recovery_id digest iso c) (recovery_id digest iso g))))
  Meets-retire me d dead (stale_of g) c h e q gone k = k
  Meets-retire me d dead nothing c h e q gone k = tt

  -- A release by the living owner of the lock.
  pub Meets-release :
      (fresh : IsFresh) (i j : ℕ) (d : LockDisk) (dead : Dead) (p : Claim)
      → i ≢ j
      → Alive (who j) dead
      → Lies (who j) d
      → Meets (who i) d dead p
      → Meets (who i) (release_lock d) dead p
  unfolding release_lock
  Meets-release fresh i j d dead holder n a l k =
      λ b. absurd (n (fresh.tokens i j (ground (arith, k b))))
  Meets-release fresh i j d dead (guards g) n a l (s, inl t) = (s, inl t)
  Meets-release fresh i j d dead (guards g) n a l (s, inr m) = absurd (ground arith)
  Meets-release fresh i j d dead (stale_of g) n a l k = k
  Meets-release fresh i j d dead nothing n a l k = tt

  pub is_dead-cons :
      (host : Text) (pid : ℕ) (x : Text × ℕ) (dead : Dead)
      → is_dead host pid dead ≡ true
      → is_dead host pid (x ∷ dead) ≡ true
  unfolding is_dead
  is_dead-cons host pid (h, p) dead e = ground arith

  pub alive-cons :
      (host : Text) (pid : ℕ) (x : Text × ℕ) (dead : Dead)
      → is_dead host pid (x ∷ dead) ≡ false
      → is_dead host pid dead ≡ false
  alive-cons host pid x dead e = elim (Bool-cases (is_dead host pid dead)) [
    | inl gone ↦ absurd (cc (e, is_dead-cons host pid x dead gone))
    | inr well ↦ well
  ]

  -- A process ends.
  pub Meets-crash :
      (me : LockMetadata) (d : LockDisk) (dead : Dead) (x : Text × ℕ) (p : Claim)
      → Meets me d dead p
      → Meets me d (x ∷ dead) p
  Meets-crash me d dead x holder k = λ a. k (alive-cons me.host me.pid x dead a)
  Meets-crash me d dead x (guards g) k =
      ((is_dead-cons g.metadata.host g.metadata.pid x dead k.0.0, k.0.1), k.1)
  Meets-crash me d dead x (stale_of g) k =
      (is_dead-cons g.metadata.host g.metadata.pid x dead k.0, k.1)
  Meets-crash me d dead x nothing k = tt
