-- ===== src/Kernel/Files/Quiet.antt =====
-- The fence of packages/kernel/src/files.ts keeps writes out of quiet sections, and leaves nobody waiting.
use apex_vnext.Common.{ℕ, ◌+◌, ◌<◌, ◌≡◌, ◌⊎◌, List, [], ◌∷◌}
use apex_vnext.Kernel.Files.{Waiter, quiet_waiter, write_waiter, FenceSystem}

abbrev quiet_count : List Waiter → ℕ
quiet_count [] = 0
quiet_count (quiet_waiter id ∷ ws) = quiet_count ws + 1
quiet_count (write_waiter id ∷ ws) = quiet_count ws

abbrev write_count : List Waiter → ℕ
write_count [] = 0
write_count (quiet_waiter id ∷ ws) = write_count ws
write_count (write_waiter id ∷ ws) = write_count ws + 1

-- Sections and counted writes exclude each other; who waits has a reason to wait; and the sections that
-- have asked and not started are the ones that wait or have been woken.
pub record IsFair (s : FenceSystem) : Type 0 where
  apart : (s.fence.writes ≡ 0) ⊎ (s.fence.quiets ≡ 0)
  quiet_reason : (quiet_count s.fence.waiters ≡ 0) ⊎ (0 < s.fence.writes)
  write_reason : (write_count s.fence.waiters ≡ 0) ⊎ (0 < s.fence.quiets + s.fence.pending_quiets)
  asked : s.fence.pending_quiets ≡ quiet_count s.fence.waiters + quiet_count s.woken
