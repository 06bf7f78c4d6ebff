-- ===== src/Kernel/Files/Tests.antt =====
-- The files' operations at concrete inputs: a write beside a quiet section that waits, and a read of a
-- file that is replaced between `lstat` and the read.
use apex_vnext.Common.{ℕ, zero, suc, ◌<◌, true, false, ◌≡◌, refl, ◌↔◌, [], ◌∷◌, none, some, ok, err}
use apex_vnext.Kernel.Files.{
  enoent, ebusy, FileError, failed, Attempt, examined, one_attempt, read_published_file,
  attempts_ok, is_transient, retry, retry_sharing_violations, quiet_waiter, write_waiter, new_fence,
  joins, start_write, FenceSystem,
}
use apex_vnext.Kernel.Files.Reading.{read_published_file-ok_iff, IsOutcome}

-- A write is in flight, a section waits for it, and a second write waits for the section.
abbrev crowded : FenceSystem
crowded = record {
  fence = record {
    has_error = false;
    writes = 1;
    quiets = 0;
    pending_quiets = 1;
    waiters = quiet_waiter 1 ∷ write_waiter 2 ∷ [];
  };
  woken = [];
}

-- The first write leaves, the section starts, and the second write waits again.
abbrev quiet_now : FenceSystem
quiet_now = record {
  fence = record {
    has_error = false;
    writes = 0;
    quiets = 1;
    pending_quiets = 0;
    waiters = write_waiter 2 ∷ [];
  };
  woken = [];
}

-- A write in the context of the section runs at once.
joins_section : start_write true 3 quiet_now.fence ≡ joins
unfolding start_write
joins_section = refl

-- The section leaves, and the second write runs and leaves.
abbrev at_rest : FenceSystem
at_rest = record { fence = new_fence; woken = [] }

-- The first attempt finds a file that is gone when it is read, and the second one reads the new file.
abbrev replaced : ℕ → Attempt
replaced zero = examined true false 2 (err enoent)
replaced (suc n) = examined true false 1 (ok (5 ∷ []))

replaced_read : read_published_file false 4 none replaced ≡ ok (some (5 ∷ []))
unfolding read_published_file attempts_ok retry one_attempt
replaced_read = refl

-- A single attempt is not enough.
replaced_once : read_published_file false 4 (some 1) replaced ≡ err (failed enoent)
unfolding read_published_file attempts_ok retry one_attempt
replaced_once = refl

busy_elsewhere :
    retry_sharing_violations {A = ℕ} false none (λ i. err (failed ebusy)) ≡ err (failed ebusy)
unfolding retry_sharing_violations attempts_ok retry
busy_elsewhere = refl

read_published_file-ok_iff_example :
    (read_published_file false 4 none replaced ≡ ok (some (5 ∷ []))) ↔ (
      (k : ℕ) × (k < 10)
      × ((j : ℕ)
          → j < k
          → (e : FileError) × (one_attempt 4 (replaced j) ≡ err e) × (is_transient false e ≡ true))
      × IsOutcome 4 (replaced k) (some (5 ∷ [])))
unfolding attempts_ok
read_published_file-ok_iff_example =
    read_published_file-ok_iff false 4 none replaced (some (5 ∷ [])) refl
