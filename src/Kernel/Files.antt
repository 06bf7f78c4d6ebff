-- ===== src/Kernel/Files.antt =====
-- packages/kernel/src/files.ts: retries of file operations, reading of files that others replace, and
-- the fence between the writes of an operation and its quiet sections.
pub mod Quiet
pub mod Reading
mod Tests
use apex_vnext.Common.{
  ℕ, zero, suc, ◌+◌, ◌-◌, Bool, true, false, ◌&&◌, ◌||◌, ◌≡◌, List, [], ◌∷◌, ◌++◌, Option, none,
  some, Result, ok, err, not, ltb, leb, length, if◌then◌else◌,
}

-- The codes of errors that the code tells apart.
pub data Code : Type 0 where
  enoent eperm eacces ebusy other_code : Code

abbrev pub is_transient_rename : Code → Bool
is_transient_rename eperm = true
is_transient_rename eacces = true
is_transient_rename ebusy = true
is_transient_rename _ = false

pub data FileError : Type 0 where
  attempts_out_of_range unsafe : FileError
  failed : Code → FileError

-- `attempts` is not given, or an integer from 1 to 10.
unfoldable pub attempts_ok : Option ℕ → Bool
attempts_ok none = true
attempts_ok (some n) = leb 1 n && leb n 10

abbrev pub or_ten : Option ℕ → ℕ
or_ten none = 10
or_ten (some n) = n

-- A loop of attempts: `results` has what each of them returns, from 0, `again` tells the errors to try
-- again after, and `n` is the number of attempts that may follow the first one.
unfoldable pub retry :
    {A : Type 0} → (FileError → Bool) → ℕ → (ℕ → Result FileError A) → Result FileError A
retry again zero results = results 0
retry again (suc n) results =
    let rest = retry again n (λ i. results (suc i)) in
    elim (results 0) [ ok a ↦ ok a | err e ↦ if again e then rest else err e ]

abbrev is_sharing_violation : FileError → Bool
is_sharing_violation (failed code) = is_transient_rename code
is_sharing_violation _ = false

-- `retrySharingViolations`, with the results of the calls of `operation`.
unfoldable pub retry_sharing_violations :
    {A : Type 0} → Bool → Option ℕ → (ℕ → Result FileError A) → Result FileError A
retry_sharing_violations windows attempts results =
    if attempts_ok attempts
    then retry is_sharing_violation ((if windows then or_ten attempts else 1) - 1) results
    else err attempts_out_of_range

-- `renameWithRetry`, with the results of the calls of `rename`.
unfoldable pub rename_with_retry :
    {A : Type 0} → Bool → Option ℕ → (ℕ → Result FileError A) → Result FileError A
unfolding retry_sharing_violations
rename_with_retry windows attempts results =
    if attempts_ok attempts
    then retry_sharing_violations windows attempts results
    else err attempts_out_of_range

-- What one attempt of `readPublishedFile` meets: `lstat` fails, or finds a file or not, a symbolic link
-- or not, and a size, and then the read fails or returns bytes.
pub data Attempt : Type 0 where
  unexamined : Code → Attempt
  examined : Bool → Bool → ℕ → Result Code (List ℕ) → Attempt

abbrev pub read_bytes : ℕ → Result Code (List ℕ) → Result FileError (Option (List ℕ))
read_bytes max_bytes (err code) = err (failed code)
read_bytes max_bytes (ok bytes) =
    if ltb max_bytes (length bytes) then err unsafe else ok (some bytes)

unfoldable pub one_attempt : ℕ → Attempt → Result FileError (Option (List ℕ))
one_attempt max_bytes (unexamined enoent) = ok none
one_attempt max_bytes (unexamined code) = err (failed code)
one_attempt max_bytes (examined is_file is_symlink size found) =
    if not is_file || is_symlink || ltb max_bytes size
    then err unsafe
    else read_bytes max_bytes found

abbrev pub is_transient : Bool → FileError → Bool
is_transient windows (failed enoent) = true
is_transient windows (failed code) = windows && is_transient_rename code
is_transient windows _ = false

unfoldable pub read_published_file :
    Bool → ℕ → Option ℕ → (ℕ → Attempt) → Result FileError (Option (List ℕ))
read_published_file windows max_bytes attempts met =
    if attempts_ok attempts
    then retry (is_transient windows) (or_ten attempts - 1) (λ i. one_attempt max_bytes (met i))
    else err attempts_out_of_range

-- A call of `changed` that is not resolved: of a section that has asked, or of a write.
pub data Waiter : Type 0 where
  quiet_waiter write_waiter : ℕ → Waiter

-- `WriteFence`; `has_error` is whether `error` is set.
pub record WriteFence : Type 0 where
  pub has_error : Bool
  pub writes : ℕ
  pub quiets : ℕ
  pub pending_quiets : ℕ
  pub waiters : List Waiter

abbrev pub new_fence : WriteFence
new_fence = record { has_error = false; writes = 0; quiets = 0; pending_quiets = 0; waiters = [] }

-- What a section or a write does at the fence: it throws, it runs at once and is not counted, since it
-- is in the context of a section, it waits for a change, or it runs and is counted.
pub data Admission : Type 0 where
  throws joins : Admission
  waits enters : WriteFence → Admission

-- `changed`.
unfoldable pub changed : Waiter → WriteFence → WriteFence
changed w f = record f { waiters = f.waiters ++ w ∷ [] }

-- `notify`, with the calls of `changed` that it resolves.
unfoldable pub notify : WriteFence → List Waiter × WriteFence
notify f = (f.waiters, record f { waiters = [] })

-- `quiet` up to its operation, from a test of its loop on; `inside` is whether the caller is in the
-- context of a section of the fence.
unfoldable pub enter_quiet : ℕ → WriteFence → Admission
unfolding changed
enter_quiet id f =
    if ltb 0 f.writes
    then waits (changed (quiet_waiter id) f)
    else enters (record f { pending_quiets = f.pending_quiets - 1; quiets = f.quiets + 1 })

unfoldable pub start_quiet : Bool → ℕ → WriteFence → Admission
unfolding enter_quiet
start_quiet inside id f =
    if inside then joins else enter_quiet id (record f { pending_quiets = f.pending_quiets + 1 })

unfoldable pub leave_quiet : WriteFence → List Waiter × WriteFence
unfolding notify
leave_quiet f = notify (record f { quiets = f.quiets - 1 })

-- `write` up to its operation, from a test of its loop on, and with the test of `error` before.
unfoldable pub enter_write : ℕ → WriteFence → Admission
unfolding changed
enter_write id f =
    if ltb 0 f.quiets || ltb 0 f.pending_quiets
    then waits (changed (write_waiter id) f)
    else enters (record f { writes = f.writes + 1 })

unfoldable pub start_write : Bool → ℕ → WriteFence → Admission
unfolding enter_write
start_write inside id f = if f.has_error then throws else if inside then joins else enter_write id f

unfoldable pub leave_write : WriteFence → List Waiter × WriteFence
unfolding notify
leave_write f = notify (record f { writes = f.writes - 1 })

-- A call of `changed` that is resolved goes on in its loop; a write has no section around it then.
unfoldable pub resume : Waiter → WriteFence → Admission
unfolding enter_quiet start_write
resume (quiet_waiter id) f = enter_quiet id f
resume (write_waiter id) f = start_write false id f

abbrev pub settled : WriteFence → Admission → WriteFence
settled f throws = f
settled f joins = f
settled f (waits g) = g
settled f (enters g) = g

-- The fence, and the resolved calls of `changed` that have not gone on yet, in their order.
pub record FenceSystem : Type 0 where
  pub fence : WriteFence
  pub woken : List Waiter

abbrev after_leaving : List Waiter → List Waiter × WriteFence → FenceSystem
after_leaving woken left = record { fence = left.1; woken = woken ++ left.0 }

-- The parts of sections and writes between their waits, in any order.
pub data FenceStep (s : FenceSystem) : FenceSystem → Type 0 where
  starts_quiet :
      (inside : Bool) (id : ℕ)
      → FenceStep s (record s { fence = settled s.fence (start_quiet inside id s.fence) })
  starts_write :
      (inside : Bool) (id : ℕ)
      → FenceStep s (record s { fence = settled s.fence (start_write inside id s.fence) })
  resumes :
      (w : Waiter) (woken : List Waiter)
      → s.woken ≡ w ∷ woken
      → FenceStep s (record { fence = settled s.fence (resume w s.fence); woken = woken })
  leaves_quiet :
      ltb 0 s.fence.quiets ≡ true → FenceStep s (after_leaving s.woken (leave_quiet s.fence))
  leaves_write :
      ltb 0 s.fence.writes ≡ true → FenceStep s (after_leaving s.woken (leave_write s.fence))
  sets_error : FenceStep s (record s { fence = record s.fence { has_error = true } })

pub data FenceReach : FenceSystem → Type 0 where
  fence_start : FenceReach (record { fence = new_fence; woken = [] })
  fence_next : {s t : FenceSystem} → FenceReach s → FenceStep s t → FenceReach t
