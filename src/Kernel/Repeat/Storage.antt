-- ===== src/Kernel/Repeat/Storage.antt =====
-- What a call of packages/kernel/src/repeat-guard.ts stores, and the repeat of that call.
use apex_vnext.Common.{
  ℕ, ◌≤◌, ◌<◌, Bool, true, ◌&&◌, ◌≡◌, refl, sym, ◌∙◌, ap, inl, inr, ◌⊎◌, List, [], ◌∷◌, ◌++◌,
  Option, none, some, Result, ok, err, ltb, ◌==◌, nat_Eq, filter, length, arith, All, subst,
}
use apex_vnext.Common.Assoc.{put}
use apex_vnext.Kernel.Canonical.{Text, text_Eq}
use apex_vnext.Kernel.Repeat.{
  RepeatRecord, stored, RepeatDisk, RepeatEvent, RepeatError, valid_records, take_last, is_live,
  next_records, max_repeat_records,
}
use apex_vnext.Kernel.Repeat.Guard.{
  RepeatScope, RepeatCall, Observed, RepeatHost, RepeatOutcome, find_last, last_scope, guarded_call,
  execute_repeat_safe, respond, execute,
}
use apex_vnext.Kernel.Repeat.Records.{find_last-take_last}

-- A record that the state and the time let stay.
abbrev pub IsCurrent : Text → ℕ → RepeatRecord → Type 0
IsCurrent state now r = (r.state_after ≡ state) × (now < r.expires_at)

is_current : Text → ℕ → RepeatRecord → Bool
is_current state now r = r.state_after == state && ltb now r.expires_at

module _ {T : Type 0} (host : RepeatHost T) where
  open host use {to_iso, parse, stringify}

  -- The records that a call has written at the scope that is observed after the execution.
  pub record Written (max_records : ℕ) (o : Observed T) (disk disk' : RepeatDisk) : Type 0 where
    pub scope : RepeatScope
    pub left : last_scope host o o.before ≡ ok (some scope)
    pub records : List RepeatRecord
    pub few : length records ≤ max_records
    pub current : All (IsCurrent scope.state o.now_after) records
    pub valid : valid_records records ≡ true
    pub written :
        disk' ≡ record disk { files = put disk.files scope.run_directory (stored records) }

  -- The records files are left as they are, or one of them is written as `Written` says.
  abbrev pub Bounded :
      ℕ → Observed T → RepeatDisk → Result RepeatError (RepeatOutcome T) × RepeatDisk → Type 0
  Bounded max_records o disk x = (x.1.files ≡ disk.files) ⊎ Written max_records o disk x.1

  safe-cases :
      (window max_records : ℕ) (call : RepeatCall) (o : Observed T) (disk : RepeatDisk)
      → ((execute_repeat_safe host window max_records call o disk).1 ≡ disk)
        ⊎ (execute_repeat_safe host window max_records call o disk
            ≡ guarded_call host window max_records call o disk)
  unfolding execute_repeat_safe
  safe-cases window max_records call o disk = ground arith

  respond-err :
      (window max_records : ℕ) (call : RepeatCall) (o : Observed T) (fingerprint : Text)
      (disk disk' : RepeatDisk) (e : RepeatError)
      (x : Result RepeatError (Option (T × RepeatEvent))) (y : Result RepeatError T)
      → o.executed ≡ y
      → respond host window max_records call o fingerprint disk x ≡ (err e, disk')
      → disk' ≡ disk
  unfolding respond execute
  respond-err window max_records call o fingerprint disk disk' e (err f) y at h = ground arith
  respond-err window max_records call o fingerprint disk disk' e (ok (some (v, event))) y at h = cc
  respond-err window max_records call o fingerprint disk disk' e (ok none) (err f) at h =
      ground arith
  respond-err window max_records call o fingerprint disk disk' e (ok none) (ok v) at h =
      absurd (ground arith)

  -- A call that throws, before or in its look-up, replay or execution, leaves the records and the
  -- audit events as they are; so a failed execution is never answered from a record.
  failed_call_stores_nothing :
      (window max_records : ℕ) (call : RepeatCall) (o : Observed T) (disk disk' : RepeatDisk)
      (e : RepeatError)
      → execute_repeat_safe host window max_records call o disk ≡ (err e, disk')
      → disk' ≡ disk
  unfolding guarded_call
  failed_call_stores_nothing window max_records call o disk disk' e h =
      elim (safe-cases window max_records call o disk) [
        | inl same ↦ sym (ap (λ x. x.1) h) ∙ same
        | inr runs ↦ respond-err window max_records call o _ disk disk' e _ _ refl (sym runs ∙ h)
      ]

  -- The code computes with the bounds in range as `guardedCall` does.
  pub in_range :
      (window max_records : ℕ) (call : RepeatCall) (o o' : Observed T) (disk disk' d : RepeatDisk)
      (out : RepeatOutcome T)
      → execute_repeat_safe host window max_records call o disk ≡ (ok out, disk')
      → (1 ≤ max_records)
        × (max_records ≤ max_repeat_records)
        × (execute_repeat_safe host window max_records call o' d
            ≡ guarded_call host window max_records call o' d)
  unfolding execute_repeat_safe
  in_range window max_records call o o' disk disk' d out h =
      (ground arith, ground arith, ground arith)

  -- The record that a call adds is among those that it stores, and is the last that fits.
  pub next_records-candidate :
      (found : List RepeatRecord) (state call_hash : Text) (now max_records : ℕ) (c : RepeatRecord)
      (rs : List RepeatRecord)
      → next_records found state (some c) call_hash now max_records ≡ ok rs
      → 1 ≤ max_records
      → (p : RepeatRecord → Bool) → p c ≡ true
      → (valid_records rs ≡ true) × (find_last p rs ≡ some c)
  unfolding next_records
  next_records-candidate found state call_hash now max_records c rs h low p at = (
    ground arith,
    subst (λ xs. find_last p xs ≡ some c) same (find_last-take_last p max_records live c at low),
  )
    where
      live : List RepeatRecord
      live = filter (is_live state call_hash now) found

      same : take_last max_records (live ++ c ∷ []) ≡ rs
      same = ground arith
