-- ===== src/Kernel/Run/Recovery.antt =====
-- What `recover` makes of an intent that a stopped mutation left behind.
use apex_vnext.Common.{
  String, ◌≡◌, refl, ap, Bool, true, List, [], ◌∷◌, ◌++◌, none, some, ok, arith, eq_iff, inl, inr,
  All, find, sym, string_Eq,
}
use apex_vnext.Kernel.Canonical.{
  Text, Fields, units, member, text_eq_iff, get_field-set_field_self, sha256_json,
}
use apex_vnext.Kernel.Journal.{Identity, Event, Directory, replay, Cursor, start, advance}
use apex_vnext.Kernel.Journal.Replay.{Chain, replay-ok_iff}
use apex_vnext.Kernel.Run.{
  TransactionIntent, RunDisk, with_id, transaction_payload, recorded_after, recover,
}

-- A disk with no intent is as it is.
pub recover_quiet :
    (sha256_text : Text → String) (disk : RunDisk)
    → disk.intent ≡ none
    → recover sha256_text disk ≡ (ok tt, disk)
unfolding recover
recover_quiet sha256_text disk h = rw h

pub find-append_one :
    (p : Event → Bool) (es : List Event) (e : Event)
    → find p es ≡ none
    → p e ≡ true
    → find p (es ++ e ∷ []) ≡ some e
find-append_one p [] e h q = rw q
find-append_one p (d ∷ es) e h q = ground (arith, find-append_one p es e)

module _ (sha256_text : Text → String) where
  -- The event of the intent is not in the journal: the intent is dropped, and the run stays.
  pub recover_uncommitted :
      (disk : RunDisk) (i : TransactionIntent) (es : List Event)
      → replay sha256_text none disk.journal ≡ ok es
      → find (with_id i.event_id) es ≡ none
      → recover sha256_text (record disk { intent = some i })
        ≡ (ok tt, record disk { intent = none })
  unfolding recover
  recover_uncommitted disk i es h fresh = ground arith

  recorded_after-payload :
      (i : TransactionIntent) (payload : Fields)
      → i.after_hash ≡ sha256_json sha256_text i.after
      → recorded_after sha256_text i
          (member (units "transaction") (transaction_payload payload i.after_hash i.after))
        ≡ ok i.after
  unfolding recorded_after transaction_payload member
  recorded_after-payload i payload h =
      rw (get_field-set_field_self (units "transaction") _ payload) (
        ground (
          arith,
          text_eq_iff (units i.after_hash) (units i.after_hash),
          eq_iff (sha256_json sha256_text i.after) i.after_hash,
        ))

  -- The event of the intent is the last one of the journal: the run that it recorded is written.
  pub recover_recorded :
      (disk : RunDisk) (i : TransactionIntent) (es : List Event) (e : Event) (payload : Fields)
      → disk.intent ≡ some i
      → replay sha256_text none disk.journal ≡ ok (es ++ e ∷ [])
      → find (with_id i.event_id) es ≡ none
      → e.event_id ≡ i.event_id
      → e.payload ≡ transaction_payload payload i.after_hash i.after
      → i.after_hash ≡ sha256_json sha256_text i.after
      → recover sha256_text disk ≡ (ok tt, record disk { run_file = i.after; intent = none })
  unfolding recover
  recover_recorded disk i es e payload there h fresh same recorded hashed = ground (
    arith,
    find-append_one (with_id i.event_id) es e fresh ((eq_iff e.event_id i.event_id).1 same),
    recorded_after-payload i payload hashed,
  )

  Chain-bind :
      (i : Identity) (c : Cursor) (es : List Event)
      → All (λ (e : Event). e.identity ≡ i) es
      → Chain sha256_text none c es
      → Chain sha256_text (some i) c es
  Chain-bind i c [] one h = tt
  Chain-bind i c (e ∷ es) (p, ps) (f, fs) = (
    record {
      numbered = f.numbered;
      linked = f.linked;
      payload_digest = f.payload_digest;
      digest = f.digest;
      one_run = f.one_run;
      admitted = inr (ap some (sym p));
    },
    Chain-bind i (advance c e) es ps fs,
  )

  Chain-unbind :
      (i : Identity) (c : Cursor) (es : List Event)
      → Chain sha256_text (some i) c es
      → Chain sha256_text none c es
  Chain-unbind i c [] h = tt
  Chain-unbind i c (e ∷ es) (f, fs) = (
    record {
      numbered = f.numbered;
      linked = f.linked;
      payload_digest = f.payload_digest;
      digest = f.digest;
      one_run = f.one_run;
      admitted = inl refl;
    },
    Chain-unbind i (advance c e) es fs,
  )

  pub replay-bind :
      (i : Identity) (files : Directory) (es : List Event)
      → All (λ (e : Event). e.identity ≡ i) es
      → replay sha256_text none files ≡ ok es
      → replay sha256_text (some i) files ≡ ok es
  replay-bind i files es one h =
      let (same, chain) = (replay-ok_iff sha256_text none files es).0 h in
      (replay-ok_iff sha256_text (some i) files es).1 (same, Chain-bind i start es one chain)

  pub replay-unbind :
      (i : Identity) (files : Directory) (es : List Event)
      → replay sha256_text (some i) files ≡ ok es
      → replay sha256_text none files ≡ ok es
  replay-unbind i files es h =
      let (same, chain) = (replay-ok_iff sha256_text (some i) files es).0 h in
      (replay-ok_iff sha256_text none files es).1 (same, Chain-unbind i start es chain)
