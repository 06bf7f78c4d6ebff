-- ===== src/Kernel/Lock/Tests.antt =====
-- The lock at concrete inputs: acquisitions of several processes of one host, the first of which ends.
use apex_vnext.Common.{
  ℕ, zero, suc, true, false, ◌≡◌, refl, sym, ◌∙◌, ap, Option, none, some, [], ◌∷◌, length, String,
  arith,
}
use apex_vnext.Kernel.Canonical.{Text, Json, str, units, member}
use apex_vnext.Kernel.Lock.{
  LockMetadata, DirectoryStat, Generation, LockDisk, is_dead, publish_lock, confirms, retire,
  recovery_id, metadata_json, owner_may_be_alive, lock_expiry, stored,
}
use apex_vnext.Kernel.Lock.Contender.{
  trying, confirmed, holding, Reading, advance_phase, read_phase, judge, after_publish, LockSystem,
  update, step, move, crash, started, Reach, start, later,
}
use apex_vnext.Kernel.Lock.Invariant.{IsFresh}
use apex_vnext.Kernel.Lock.Exclusion.{mutual_exclusion, takeover_exact}
use apex_vnext.Kernel.Lock.Share.{ShareDisk, ShareSystem}
use apex_vnext.Kernel.Lock.Progress.{alone, takes_over_dead_owner}

-- A digest that keeps one number of an object: its token, or the length of its metadata hash.
abbrev unary : ℕ → String
unary zero = String.[]
unary (suc n) = String.◌∷◌ "a" (unary n)

abbrev number_of : Option Json → ℕ
number_of (some (str (n ∷ []))) = n
number_of _ = 0

abbrev length_of : Option Json → ℕ → ℕ
length_of (some (str t)) n = length t
length_of _ n = n

abbrev digest : Json → String
digest j =
    unary (length_of (member (units "metadataHash") j) (number_of (member (units "token") j)))

abbrev iso : ℕ → Text
iso n = n ∷ []

abbrev host : Text
host = units "h"

abbrev who : ℕ → LockMetadata
who i = record { token = i ∷ []; pid = suc i; host = host; created_at = 0; expires_at = 10 }

length-units-unary : (n : ℕ) → length (units (unary n)) ≡ n
length-units-unary zero = refl
length-units-unary (suc n) = ap suc (length-units-unary n)

recovery_number : (i : ℕ) (g : Generation) → g.metadata ≡ who i → recovery_id digest iso g ≡ unary i
unfolding recovery_id metadata_json member
recovery_number i g e = ground (arith, length-units-unary i)

unary_injective : (i j : ℕ) → unary i ≡ unary j → i ≡ j
unary_injective i j e =
    sym (length-units-unary i) ∙ ap (λ s. length (units s)) e ∙ length-units-unary j

fresh : IsFresh digest iso who
fresh = record {
  tokens = λ i j e. cc;
  no_collision = λ i j g h a b e.
      unary_injective i j (sym (recovery_number i g a) ∙ e ∙ recovery_number j h b);
}

abbrev stat : DirectoryStat
stat = record { device = units "1"; inode = units "2"; changed_at = units "3" }

abbrev at_time : ℕ → Reading
at_time now = record { now = now; contention = false; deadline_passed = false; stat = stat }

-- The first acquisition takes the lock.
abbrev taken : LockSystem
taken =
    step digest iso who 0 (at_time 1) (step digest iso who 0 (at_time 0) (started digest iso who))

taken-Reach : Reach digest iso who taken
unfolding is_dead step
taken-Reach = later (later start (move 0 (at_time 0) refl)) (move 0 (at_time 1) refl)

taken_holds : taken.phase 0 ≡ holding
unfolding step advance_phase publish_lock after_publish update
taken_holds = refl

mutual_exclusion_example : ◌≡◌ {A = ℕ} 0 0
unfolding step advance_phase publish_lock after_publish update is_dead
mutual_exclusion_example = mutual_exclusion digest iso who fresh taken-Reach 0 0 refl refl refl refl

-- The process of the first acquisition ends, and the second one finds its lock stale.
abbrev crashed : LockSystem
crashed = record taken { dead = (host, 1) ∷ [] }

abbrev confirmed_state : LockSystem
confirmed_state =
    step digest iso who 1 (at_time 20)
      (step digest iso who 1 (at_time 20) (step digest iso who 1 (at_time 20) crashed))

confirmed-Reach : Reach digest iso who confirmed_state
unfolding is_dead step
confirmed-Reach =
    later
      (later (later (later taken-Reach (crash host 1)) (move 1 (at_time 20) refl))
        (move 1 (at_time 20) refl))
      (move 1 (at_time 20) refl)

abbrev first : Generation
first = record { metadata = who 0; stat = stat }

confirmed_phase : confirmed_state.phase 1 ≡ confirmed false first
unfolding step advance_phase publish_lock after_publish update read_phase judge owner_may_be_alive
    is_dead confirms recovery_id member metadata_json
confirmed_phase = refl

abbrev after_takeover : LockDisk
after_takeover = record { lock = none; tombstones = recovery_id digest iso first ∷ [] }

confirmed_retires : retire digest iso first confirmed_state.disk ≡ (true, after_takeover)
unfolding step advance_phase publish_lock after_publish update read_phase judge owner_may_be_alive
    is_dead confirms recovery_id member metadata_json retire
confirmed_retires = refl

takeover_exact_example :
    ((h : Generation) × (confirmed_state.disk.lock ≡ some h)
      × (recovery_id digest iso h ≡ recovery_id digest iso first)
      × (h.metadata ≡ who 0)
      × (is_dead h.metadata.host h.metadata.pid confirmed_state.dead ≡ true))
    × ((later_lock : Option Generation)
        → retire digest iso first (record after_takeover { lock = later_lock })
          ≡ (false, record after_takeover { lock = later_lock }))
takeover_exact_example =
    takeover_exact digest iso who fresh confirmed-Reach 1 false first after_takeover confirmed_phase
      confirmed_retires

abbrev locked : LockDisk
locked = record { lock = some first; tombstones = [] }

takes_over_dead_owner_example :
    (alone digest iso (who 1) ((host, 1) ∷ []) (at_time 20) 6 (trying false, locked)).0 ≡ holding
unfolding is_dead
takes_over_dead_owner_example =
    takes_over_dead_owner digest iso (who 1) ((host, 1) ∷ []) (at_time 20) locked first refl
      (omega arith) refl refl refl

abbrev late : ℕ → Reading
late now = record (at_time now) { deadline_passed = true }

-- What a lock file may hold: an expiry before the creation, and no token.
expiry_read : lock_expiry (some (stored (who 0))) ≡ some 10
unfolding lock_expiry
expiry_read = refl

expiry_refused : lock_expiry (some (record (stored (who 0)) { token = some [] })) ≡ none
unfolding lock_expiry
expiry_refused = refl

-- A generation that opens a window, in which another process reads the number 7.
abbrev held_system : ShareSystem ℕ
held_system = record {
  disk = record { lock = some (units "a"); marker = none; protected = 7 };
  used = [];
}

abbrev shared_disk : ShareDisk ℕ
shared_disk = record {
  lock = some (units "a");
  marker = some (record { token = units "a"; window = units "w" });
  protected = 7;
}

abbrev shared_system : ShareSystem ℕ
shared_system = record { disk = shared_disk; used = units "w" ∷ [] }
