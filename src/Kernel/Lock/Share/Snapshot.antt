-- ===== src/Kernel/Lock/Share/Snapshot.antt =====
-- A read in a shared window of packages/kernel/src/directory-lock.ts sees data that nobody changes.
use apex_vnext.Common.{true, ◌≡◌, ◌≢◌, some, nat_Eq, option_Eq, includes}
use apex_vnext.Kernel.Canonical.{Text, text_Eq}
use apex_vnext.Kernel.Lock.Share.{ShareMarker, ShareSystem}

module _ {D : Type 0} where
  -- The identifier of the open window has been used.
  abbrev IsTracked : ShareSystem D → Type 0
  IsTracked s = (m : ShareMarker) → s.disk.marker ≡ some m → includes m.window s.used ≡ true

  -- The window `w` has been used and is not open: it never opens again.
  abbrev IsGone : Text → ShareSystem D → Type 0
  IsGone w s =
      (includes w s.used ≡ true) × ((m : ShareMarker) → s.disk.marker ≡ some m → m.window ≢ w)

  -- The window `w` is open and the data is `v`.
  abbrev IsOpen : Text → D → ShareSystem D → Type 0
  IsOpen w v s =
      (includes w s.used ≡ true)
      × (m : ShareMarker) × (s.disk.marker ≡ some m)
      × (s.disk.protected ≡ v)
