-- ===== src/Kernel/Repeat/Replay.antt =====
-- When packages/kernel/src/repeat-guard.ts answers a call from a record, and what a call stores.
use apex_vnext.Common.{
  ℕ, ◌<◌, Bool, true, false, ◌≡◌, refl, sym, inl, inr, [], ◌∷◌, ◌++◌, Option, none, some, Result,
  ok, err, nat_Eq, arith, Option-cases, >>=-eq-ok, ◌>>=◌, subst,
}
use apex_vnext.Kernel.Canonical.{Text, text_Eq, text_eq_iff}
use apex_vnext.Kernel.Repeat.{
  RepeatRecord, RepeatDisk, RepeatEvent, RepeatError, read_repeat_records,
}
use apex_vnext.Kernel.Repeat.Guard.{
  RepeatScope, RepeatCall, Observed, RepeatHost, RepeatOutcome, matches, find_last, or_none,
  look_up, still_holds, repeat_event, guarded_call, execute_repeat_safe, respond, answer_from,
  repeat_answer, replay_call, execute, audited,
}
use apex_vnext.Kernel.Repeat.Records.{Listed, find_last-Listed}

module _ {T : Type 0} (host : RepeatHost T) where
  open host use {to_iso, parse, stringify}

  -- A record that answers the call at the state and the time of the call.
  pub record Answers (call : RepeatCall) (state : Text) (now : ℕ) (r : RepeatRecord) : Type 0 where
    pub same_call : r.call_hash ≡ call.call_hash
    pub same_state : r.state_after ≡ state
    pub unexpired : now < r.expires_at

  matches-Answers :
      (call : RepeatCall) (state : Text) (now : ℕ) (r : RepeatRecord)
      → matches call.call_hash state now r ≡ true
      → Answers call state now r
  unfolding matches
  matches-Answers call state now r h =
      ground (arith, text_eq_iff r.call_hash call.call_hash, text_eq_iff r.state_after state)

  look_up-Answers :
      (disk : RepeatDisk) (call : RepeatCall) (scope : RepeatScope) (now : ℕ) (r : RepeatRecord)
      (v : T)
      → look_up host disk call scope now ≡ some (r, v)
      → Listed r (read_repeat_records to_iso disk scope.run_directory)
        × Answers call scope.state now r
        × (parse r.result ≡ some v)
  unfolding look_up answer_from
  look_up-Answers disk call scope now r v h = elim (Option-cases found) [
    | inl e ↦ absurd (ground arith)
    | inr (x, e) ↦
        let same : x ≡ r = ground arith in
        let (there, fits) =
          find_last-Listed wanted (read_repeat_records to_iso disk scope.run_directory) x e in
        (
          subst (λ y. Listed y (read_repeat_records to_iso disk scope.run_directory)) same there,
          matches-Answers call scope.state now r (subst (λ y. wanted y ≡ true) same fits),
          ground arith,
        )
  ]
    where
      wanted : RepeatRecord → Bool
      wanted = matches call.call_hash scope.state now

      found : Option RepeatRecord
      found = find_last wanted (read_repeat_records to_iso disk scope.run_directory)

  -- What a call that got past the checks of its bounds does.
  pub safe-guarded :
      (window max_records : ℕ) (call : RepeatCall) (o : Observed T) (disk disk' : RepeatDisk)
      (out : RepeatOutcome T)
      → execute_repeat_safe host window max_records call o disk ≡ (ok out, disk')
      → guarded_call host window max_records call o disk ≡ (ok out, disk')
  unfolding execute_repeat_safe
  safe-guarded window max_records call o disk disk' out h = ground arith

  respond-repeated :
      (window max_records : ℕ) (call : RepeatCall) (o : Observed T) (fingerprint : Text)
      (disk disk' : RepeatDisk) (out : RepeatOutcome T)
      (x : Result RepeatError (Option (T × RepeatEvent)))
      → respond host window max_records call o fingerprint disk x ≡ (ok out, disk')
      → out.repeated ≡ true
      → (event : RepeatEvent) × (x ≡ ok (some (out.value, event)))
        × (out.fingerprint ≡ fingerprint)
        × (disk' ≡ record disk { audit = disk.audit ++ event ∷ [] })
  unfolding respond execute
  respond-repeated window max_records call o fingerprint disk disk' out (err e) h again = cc
  respond-repeated window max_records call o fingerprint disk disk' out (ok none) h again =
      absurd (ground arith)
  respond-repeated window max_records call o fingerprint disk disk' out (ok (some (v, event))) h
        again =
      (event, ground arith, ground arith, ground arith)

  audited-some :
      (o : Observed T) (v w : T) (event event' : RepeatEvent) (b : Bool)
      → audited host o v event b ≡ ok (some (w, event'))
      → (b ≡ true) × (o.allowed ≡ ok tt) × (v ≡ w) × (event ≡ event')
  unfolding audited
  audited-some o v w event event' false h = cc
  audited-some o v w event event' true h = ground arith

  replay-some :
      (call : RepeatCall) (o : Observed T) (fingerprint : Text) (disk : RepeatDisk) (v : T)
      (event : RepeatEvent) (before : Result RepeatError (Option RepeatScope))
      → replay_call host call (or_none before) o fingerprint disk ≡ ok (some (v, event))
      → (scope : RepeatScope) × (r : RepeatRecord) × (before ≡ ok (some scope))
        × (look_up host disk call scope o.now_before ≡ some (r, v))
        × (still_holds host scope o ≡ ok true)
        × (o.allowed ≡ ok tt)
        × (event ≡ repeat_event host call scope r fingerprint)
  unfolding replay_call or_none repeat_answer
  replay-some call o fingerprint disk v event (err e) h = cc
  replay-some call o fingerprint disk v event (ok none) h = cc
  replay-some call o fingerprint disk v event (ok (some scope)) h =
      elim (Option-cases (look_up host disk call scope o.now_before)) [
        | inl e ↦ absurd (ground arith)
        | inr ((r, w), e) ↦
            let bound : (still_holds host scope o
                  >>= audited host o w (repeat_event host call scope r fingerprint))
                ≡ ok (some (v, event)) =
              ground arith in
            let (b, holds, done) = >>=-eq-ok (still_holds host scope o) _ bound in
            let (yes_holds, allowed, same, same_event) = audited-some o w v _ event b done in
            (scope, r, refl, ground arith, ground arith, allowed, sym same_event)
      ]

  -- A call is answered as a repeat only from a record in the file of the selected run that has the
  -- same call hash, the current state and has not expired; the value is the one that the record holds,
  -- the identity and the state were found unchanged after the look-up, the ownership check has passed,
  -- and the call leaves the records as they are and appends one audit event of that record.
  pub repeated_from_record :
      (window max_records : ℕ) (call : RepeatCall) (o : Observed T) (disk disk' : RepeatDisk)
      (out : RepeatOutcome T)
      → execute_repeat_safe host window max_records call o disk ≡ (ok out, disk')
      → out.repeated ≡ true
      → (scope : RepeatScope) × (r : RepeatRecord) × (o.before ≡ ok (some scope))
        × Listed r (read_repeat_records to_iso disk scope.run_directory)
        × Answers call scope.state o.now_before r
        × (parse r.result ≡ some out.value)
        × (still_holds host scope o ≡ ok true)
        × (o.allowed ≡ ok tt)
        × (disk' ≡ record disk {
          audit = disk.audit ++ repeat_event host call scope r out.fingerprint ∷ [];
        })
  unfolding guarded_call
  repeated_from_record window max_records call o disk disk' out h again =
      let call_done = safe-guarded window max_records call o disk disk' out h in
      let (event, answered, print, left) =
        respond-repeated window max_records call o _ disk disk' out _ call_done again in
      let (scope, r, at, found, holds, allowed, is_event) =
        replay-some call o _ disk out.value event o.before answered in
      let (there, answers, value) =
        look_up-Answers disk call scope o.now_before r out.value found in
      (scope, r, at, there, answers, value, holds, allowed, ground arith)
