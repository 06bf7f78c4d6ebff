-- ===== src/Kernel/Lock/Share.antt =====
-- The shared windows of packages/kernel/src/directory-lock.ts: while the holder of the lock waits, it
-- opens a window in which others read without the lock. The state is the token in the lock, the marker
-- file of the window, and the protected data.
pub mod Snapshot
use apex_vnext.Common.{
  ℕ, Bool, true, false, ◌&&◌, ◌≡◌, List, [], ◌∷◌, Option, none, some, Result, ok, err, not, ◌==◌,
  nat_Eq, option_Eq, if◌then◌else◌, includes,
}
use apex_vnext.Kernel.Canonical.{Text, text_Eq}

-- The marker file: the token of the generation and the new identifier of the window.
pub record ShareMarker : Type 0 where
  pub token : Text
  pub window : Text

pub record ShareDisk (D : Type 0) : Type 0 where
  pub lock : Option Text
  pub marker : Option ShareMarker
  pub protected : D

pub data ShareError : Type 0 where
  no_longer_held : ShareError

-- `shareWindow`, less the token that both readings of it have: the window of the generation that holds
-- the lock. A marker that cannot be read counts as no marker.
unfoldable pub window_of : Text → Option ShareMarker → Option ShareMarker
window_of token none = none
window_of token (some m) = if m.token == token && not (m.window == []) then some m else none

unfoldable pub share_window : {D : Type 0} → ShareDisk D → Option ShareMarker
unfolding window_of
share_window d = elim d.lock [ none ↦ none | some token ↦ window_of token d.marker ]

-- `openShare`, with the new identifier of the window.
unfoldable pub open_share :
    {D : Type 0} → Text → Text → ShareDisk D → Result ShareError (ShareDisk D)
open_share token window d =
    if d.lock == some token
    then ok (record d { marker = some (record { token = token; window = window }) })
    else err no_longer_held

-- `closeShare`.
unfoldable pub close_share : {D : Type 0} → ShareDisk D → ShareDisk D
close_share d = record d { marker = none }

abbrev pub same_window : ShareMarker → Option ShareMarker → Bool
same_window m none = false
same_window m (some n) = m.token == n.token && m.window == n.window

-- `readShared`: the states that the first reading of the window, the read and the second reading of
-- the window find. The result of the read, its failure included, counts only in one window.
unfoldable pub read_shared :
    {D V : Type 0} → (D → V) → ShareDisk D → ShareDisk D → ShareDisk D → Option V
read_shared read before during after = elim (share_window before) [
  | none ↦ none
  | some m ↦ if same_window m (share_window after) then some (read during.protected) else none
]

-- The steps of others while a reader reads: a hold is taken, opens windows under new identifiers,
-- closes them, writes the data outside its windows, and is given up or
-- taken over with its marker.
pub record ShareSystem (D : Type 0) : Type 0 where
  pub disk : ShareDisk D
  pub used : List Text

pub data ShareStep {D : Type 0} (s : ShareSystem D) : ShareSystem D → Type 0 where
  take :
      (token : Text)
      → s.disk.lock ≡ none
      → ShareStep s (record s {
        disk = record { lock = some token; marker = none; protected = s.disk.protected };
      })
  open_window :
      (token window : Text) (d : ShareDisk D)
      → includes window s.used ≡ false
      → open_share token window s.disk ≡ ok d
      → ShareStep s (record { disk = d; used = window ∷ s.used })
  close_window : ShareStep s (record s { disk = close_share s.disk })
  write :
      (token : Text) (value : D)
      → s.disk.lock ≡ some token
      → s.disk.marker ≡ none
      → ShareStep s (record s {
        disk = record { lock = s.disk.lock; marker = s.disk.marker; protected = value };
      })
  give_up :
      ShareStep s
        (record s { disk = record { lock = none; marker = none; protected = s.disk.protected } })

pub data ShareTrace {D : Type 0} (s : ShareSystem D) : ShareSystem D → Type 0 where
  stay : ShareTrace s s
  go_on : {t u : ShareSystem D} → ShareTrace s t → ShareStep t u → ShareTrace s u

abbrev pub fresh_system : {D : Type 0} → D → ShareSystem D
fresh_system v = record { disk = record { lock = none; marker = none; protected = v }; used = [] }
