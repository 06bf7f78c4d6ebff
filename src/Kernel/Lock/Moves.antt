-- ===== src/Kernel/Lock/Moves.antt =====
-- Every step of packages/kernel/src/directory-lock.ts keeps the facts of Lock/Invariant.antt.
use apex_vnext.Common.{
  ℕ, Bool, true, false, ◌≡◌, refl, sym, ◌∙◌, ap, ◌≢◌, inl, inr, Option, none, some, ◌∷◌, nat_Eq,
  string_Eq, String, includes, arith, Bool-cases, Option-cases, subst, eq_iff, if◌then◌else◌,
}
use apex_vnext.Kernel.Canonical.{Text, Json, text_Eq, text_eq_iff}
use apex_vnext.Kernel.Lock.{
  LockMetadata, Generation, LockDisk, Dead, is_dead, owner_may_be_alive, confirms, retire,
  recovery_id,
}
use apex_vnext.Kernel.Lock.Contender.{
  Phase, trying, staged, contended, stale, confirmed, waiting, settling, holding, leaving, parted,
  failed, Reading, after_publish, judge, after_retire, read_phase, is_mine, advance_phase, leave,
  LockSystem, update, step, Step, move, let_go, crash, Reach, start, later,
}
use apex_vnext.Kernel.Lock.Invariant.{
  holds, Alive, claim, Lies, retire_again, retire_first, publish_free, publish_taken, released,
  some_injective, or_false, IsFresh, Owned, Guarded, Fits, Inv, Fits-update, Meets-publish,
  Meets-retire, Meets-release, Meets-crash,
}

module _ (digest : Json → String) (iso : ℕ → Text) (who : ℕ → LockMetadata) where
  -- What a step of the acquisition `j` has to leave.
  record Moved (j : ℕ) (s : LockSystem) (p : Phase) (d : LockDisk) : Type 0 where
    lies : (g : Generation) → d.lock ≡ some g → Owned digest iso who g
    own : Fits digest iso who (who j) d s.dead p
    others : (i : ℕ) → i ≢ j → Fits digest iso who (who i) d s.dead (s.phase i)

  Moved-Inv :
      (j : ℕ) (s : LockSystem) (p : Phase) (d : LockDisk)
      → Moved j s p d
      → Inv digest iso who (record s { disk = d; phase = update s.phase j p })
  Moved-Inv j s p d m = record {
    owned = m.lies;
    fits = Fits-update digest iso who d s.dead s.phase j p m.own m.others;
  }

  quiet :
      (j : ℕ) (s : LockSystem) (p : Phase)
      → Inv digest iso who s
      → Fits digest iso who (who j) s.disk s.dead p
      → Moved j s p s.disk
  quiet j s p inv own = record { lies = inv.owned; own = own; others = λ i _. inv.fits i }

  stale_owner_dead :
      (me : LockMetadata) (dead : Dead) (g : Generation)
      → owner_may_be_alive me.host dead g.metadata ≡ false
      → is_dead g.metadata.host g.metadata.pid dead ≡ true
  unfolding owner_may_be_alive
  stale_owner_dead me dead g h = ground arith

  is_mine-Lies :
      (fresh : IsFresh digest iso who) (s : LockSystem) (j : ℕ)
      → Inv digest iso who s
      → is_mine (who j) s.disk ≡ true
      → Lies (who j) s.disk
  unfolding is_mine
  is_mine-Lies fresh s j inv h = elim (Option-cases s.disk.lock) [
    | inl e ↦ absurd (ground arith)
    | inr (g, e) ↦
        let (k, owner) = inv.owned g e in
        let same : k ≡ j =
          fresh.tokens k j (ground (arith, text_eq_iff g.metadata.token (who j).token)) in
        (g, e, owner ∙ ap who same)
  ]

  confirms-Guarded :
      (fresh : IsFresh digest iso who) (s : LockSystem) (g : Generation)
      → Inv digest iso who s
      → Owned digest iso who g
      → confirms digest iso g s.disk ≡ true
      → Guarded digest iso who g s.disk
  unfolding confirms
  confirms-Guarded fresh s g inv (k, owner) h = elim (Option-cases s.disk.lock) [
    | inl e ↦ absurd (ground arith)
    | inr (c, e) ↦
        let (l, published) = inv.owned c e in
        let same : recovery_id digest iso c ≡ recovery_id digest iso g =
          ground (arith, eq_iff (recovery_id digest iso c) (recovery_id digest iso g)) in
        inr (
          c,
          e,
          same,
          published ∙ ap who (fresh.no_collision l k c g published owner same) ∙ sym owner,
        )
  ]

  Fits-if :
      (me : LockMetadata) (d : LockDisk) (dead : Dead) (b : Bool) (p q : Phase)
      → (b ≡ true → Fits digest iso who me d dead p)
      → (b ≡ false → Fits digest iso who me d dead q)
      → Fits digest iso who me d dead (if b then p else q)
  Fits-if me d dead true p q h k = h refl
  Fits-if me d dead false p q h k = k refl

  Fits-after_retire :
      (me : LockMetadata) (d : LockDisk) (dead : Dead) (w b : Bool)
      → Fits digest iso who me d dead (after_retire w b)
  unfolding after_retire
  Fits-after_retire me d dead false true = tt
  Fits-after_retire me d dead false false = tt
  Fits-after_retire me d dead true b = tt

  Fits-read :
      (me : LockMetadata) (d : LockDisk) (dead : Dead) (now : ℕ) (w : Bool) (o : Option Generation)
      → ((g : Generation) → o ≡ some g → Owned digest iso who g)
      → Fits digest iso who me d dead (read_phase me dead now w o)
  unfolding read_phase judge
  Fits-read me d dead now false none own = tt
  Fits-read me d dead now true none own = tt
  Fits-read me d dead now w (some g) own =
      Fits-if me d dead _ waiting (stale w g) (λ h. tt)
        (λ h. (stale_owner_dead me dead g (or_false _ _ h).1, own g refl))

  Fits-after_publish :
      (me : LockMetadata) (d : LockDisk) (dead : Dead) (w : Bool)
      → Lies me d
      → Fits digest iso who me d dead (after_publish w true)
  unfolding after_publish
  Fits-after_publish me d dead false l = λ _. l
  Fits-after_publish me d dead true l = tt

  staged_Moved :
      (s : LockSystem) (j : ℕ) (r : Reading) (w : Bool)
      → Inv digest iso who s
      → Moved j s
          (advance_phase digest iso (who j) s.dead r s.disk (staged w)).0
          (advance_phase digest iso (who j) s.dead r s.disk (staged w)).1
  unfolding advance_phase after_publish
  staged_Moved s j r w inv =
      let g : Generation = record { metadata = who j; stat = r.stat } in
      elim (Option-cases s.disk.lock) [
        | inl e ↦
            subst (λ x. Moved j s (after_publish w x.0) x.1) (sym (publish_free g s.disk e))
              (record {
                lies = λ c h. (j, ap (λ (x : Generation). x.metadata) (sym (some_injective h)));
                own = Fits-after_publish (who j) _ s.dead w (g, refl, refl);
                others = λ i n.
                    Meets-publish digest iso who (who i) s.disk s.dead (claim (s.phase i)) g e
                      (inv.fits i);
              })
        | inr (c, e) ↦
            subst (λ x. Moved j s (after_publish w x.0) x.1) (sym (publish_taken g c s.disk e))
              (quiet j s (contended w) inv tt)
      ]

  retire_blocked_Moved :
      (s : LockSystem) (j : ℕ) (w : Bool) (g : Generation)
      → Inv digest iso who s
      → retire digest iso g s.disk ≡ (false, s.disk)
      → Moved j s (after_retire w (retire digest iso g s.disk).0) (retire digest iso g s.disk).1
  retire_blocked_Moved s j w g inv e =
      subst (λ x. Moved j s (after_retire w x.0) x.1) (sym e)
        (quiet j s (after_retire w false) inv (Fits-after_retire (who j) s.disk s.dead w false))

  confirmed_Moved :
      (s : LockSystem) (j : ℕ) (w : Bool) (g : Generation)
      → Inv digest iso who s
      → Fits digest iso who (who j) s.disk s.dead (confirmed w g)
      → Moved j s (after_retire w (retire digest iso g s.disk).0) (retire digest iso g s.disk).1
  confirmed_Moved s j w g inv (gone, inl there) =
      retire_blocked_Moved s j w g inv (retire_again digest iso g s.disk there)
  confirmed_Moved s j w g inv (gone, inr (h, e, q, m)) =
      elim (Bool-cases (includes (recovery_id digest iso g) s.disk.tombstones)) [
        | inl there ↦ retire_blocked_Moved s j w g inv (retire_again digest iso g s.disk there)
        | inr new ↦
            subst (λ x. Moved j s (after_retire w x.0) x.1)
              (sym (retire_first digest iso g h s.disk e new))
              (record {
                lies = λ c none_there. absurd (cc none_there);
                own =
                    Fits-after_retire (who j)
                      (record {
                        lock = none;
                        tombstones = recovery_id digest iso g ∷ s.disk.tombstones;
                      })
                      s.dead w true;
                others = λ i n.
                    Meets-retire digest iso who (who i) s.disk s.dead (claim (s.phase i)) g h e q
                      (ground (arith, gone.0)) (inv.fits i);
              })
      ]

  advance-Moved :
      (fresh : IsFresh digest iso who) (s : LockSystem) (j : ℕ) (r : Reading) (p : Phase)
      → Inv digest iso who s
      → Alive (who j) s.dead
      → Fits digest iso who (who j) s.disk s.dead p
      → Moved j s
          (advance_phase digest iso (who j) s.dead r s.disk p).0
          (advance_phase digest iso (who j) s.dead r s.disk p).1
  unfolding advance_phase
  advance-Moved fresh s j r (trying w) inv a f =
      quiet j s _ inv (Fits-if _ _ _ _ (contended w) (staged w) (λ h. tt) (λ h. tt))
  advance-Moved fresh s j r (staged w) inv a f = staged_Moved s j r w inv
  advance-Moved fresh s j r (contended w) inv a f =
      quiet j s _ inv (Fits-read (who j) s.disk s.dead r.now w s.disk.lock inv.owned)
  advance-Moved fresh s j r (stale w g) inv a f = quiet j s _ inv (
      Fits-if _ _ _ _ (confirmed w g) (after_retire w false)
        (λ h. (f, confirms-Guarded fresh s g inv f.1 h))
        (λ h. Fits-after_retire (who j) s.disk s.dead w false))
  advance-Moved fresh s j r (confirmed w g) inv a f = confirmed_Moved s j w g inv f
  advance-Moved fresh s j r waiting inv a f = quiet j s _ inv (
      Fits-if _ _ _ _ failed (if r.deadline_passed then settling else trying true) (λ h. tt)
        (λ h. Fits-if _ _ _ _ settling (trying true) (λ h. tt) (λ h. tt)))
  advance-Moved fresh s j r settling inv a f =
      quiet j s _ inv
        (Fits-if _ _ _ _ holding failed (λ h _. is_mine-Lies fresh s j inv h) (λ h. tt))
  advance-Moved fresh s j r holding inv a f = quiet j s _ inv f
  advance-Moved fresh s j r leaving inv a f = record {
    lies = λ g h. absurd (cc (h, released s.disk));
    own = tt;
    others = λ i n.
        Meets-release digest iso who fresh i j s.disk s.dead (claim (s.phase i)) n a (f a)
          (inv.fits i);
  }
  advance-Moved fresh s j r parted inv a f = quiet j s _ inv tt
  advance-Moved fresh s j r failed inv a f = quiet j s _ inv tt

  Step-Inv :
      (fresh : IsFresh digest iso who) {s t : LockSystem}
      → Step digest iso who s t
      → Inv digest iso who s
      → Inv digest iso who t
  unfolding step leave
  Step-Inv fresh {s} (move i r a) inv =
      Moved-Inv i s _ _ (advance-Moved fresh s i r (s.phase i) inv a (inv.fits i))
  Step-Inv fresh {s} (let_go i a e) inv = Moved-Inv i s _ s.disk (
      quiet i s _ inv
        (Fits-if _ _ _ _ leaving parted (λ h _. is_mine-Lies fresh s i inv h) (λ h. tt)))
  Step-Inv fresh {s} (crash host pid) inv = record {
    owned = inv.owned;
    fits = λ i.
        Meets-crash digest iso who (who i) s.disk s.dead (host, pid) (claim (s.phase i))
          (inv.fits i);
  }

  pub Reach-Inv :
      (fresh : IsFresh digest iso who) {s : LockSystem}
      → Reach digest iso who s
      → Inv digest iso who s
  Reach-Inv fresh start = record { owned = λ g h. absurd (cc h); fits = λ i. tt }
  Reach-Inv fresh (later r st) = Step-Inv fresh st (Reach-Inv fresh r)

  pub Fits-holds :
      (me : LockMetadata) (d : LockDisk) (dead : Dead) (p : Phase)
      → holds p ≡ true
      → Alive me dead
      → Fits digest iso who me d dead p
      → Lies me d
  Fits-holds me d dead holding h a f = f a
  Fits-holds me d dead leaving h a f = f a
  Fits-holds me d dead p h a f = absurd (ground arith)
