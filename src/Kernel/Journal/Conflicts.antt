-- ===== src/Kernel/Journal/Conflicts.antt =====
-- Two writers of one journal, and events that belong to another run.
use apex_vnext.Common.{
  ℕ, ◌+◌, ◌≤◌, String, ◌≡◌, ◌≢◌, refl, ap, true, List, [], ◌∷◌, Option, some, ok, err, arith,
  eq_iff, length, subst, string_Eq, option_Eq, ◌∙◌, sym, nat_Eq,
}
use apex_vnext.Kernel.Canonical.{Text, sha256_json}
use apex_vnext.Kernel.Journal.{
  Identity, Event, AppendEventInput, Content, stored, Directory, Cursor, start, advance, check,
  replay, body_json, prepare, prepare_after, publish, append, add_file, has_file, another_writer,
  corrupt_identity,
}
use apex_vnext.Kernel.Journal.Replay.{
  after, replay-ok_iff, replay_from-append_one, identity_eq_iff, previous_iff,
}
use apex_vnext.Kernel.Journal.Append.{
  event_of, head_hash, last_epoch, prepare_after-ok_iff, append_writes, after-index,
  after_start-previous,
}

has_file-add_file :
    (n : ℕ) (c : Content) (files : Directory) → has_file n (add_file n c files) ≡ true
unfolding has_file add_file
has_file-add_file n c [] = ground arith
has_file-add_file n c ((m, d) ∷ files) = ground (arith, has_file-add_file n c files)

publish_twice :
    (e e' : Event) (files : Directory)
    → e'.sequence ≡ e.sequence
    → let files' = (publish e files).1 in publish e' files' ≡ (err another_writer, files')
unfolding publish
publish_twice e e' files h = ground (arith, has_file-add_file e.sequence (stored e) files)

after-seen_first :
    (c : Cursor) (i : Identity) (es : List Event) → c.seen ≡ some i → (after c es).seen ≡ some i
after-seen_first c i [] h = h
after-seen_first c i (e ∷ es) h = after-seen_first (advance c e) i es (ground arith)

module _ (sha256_text : Text → String) (bound : Option Identity) where
  prepared-sequence :
      (input : AppendEventInput) (files : Directory) (es : List Event) (e : Event)
      → replay sha256_text bound files ≡ ok es
      → prepare sha256_text bound input files ≡ ok e
      → e.sequence ≡ length es + 1
  unfolding prepare
  prepared-sequence input files es e h p =
      let p' : prepare_after sha256_text bound input es ≡ ok e = rw h at p in
      ap (λ (x : Event). x.sequence) ((prepare_after-ok_iff sha256_text bound input es e).0 p').3

  -- Two writers that both read a journal before either of them writes: whichever publishes first,
  -- the other one fails and leaves the journal as the first one left it. No event is lost or
  -- overwritten.
  pub one_writer_wins :
      (first second : AppendEventInput) (files : Directory) (es : List Event) (e e' : Event)
      → replay sha256_text bound files ≡ ok es
      → prepare sha256_text bound first files ≡ ok e
      → prepare sha256_text bound second files ≡ ok e'
      → let files' = (publish e files).1 in publish e' files' ≡ (err another_writer, files')
  one_writer_wins first second files es e e' h p q =
      publish_twice e e' files
        (prepared-sequence second files es e' h q ∙ sym (prepared-sequence first files es e h p))

  check_foreign :
      (c : Cursor) (e : Event) (i : Identity)
      → e.sequence ≡ c.index + 1
      → e.previous_hash ≡ c.previous
      → sha256_json sha256_text e.payload ≡ e.payload_hash
      → sha256_json sha256_text (body_json e.body) ≡ e.hash
      → c.seen ≡ some i
      → i ≢ e.identity
      → check sha256_text bound c (c.index + 1) (stored e) ≡ err (corrupt_identity e.sequence)
  unfolding check
  check_foreign c e i n l p d s other = ground (
    arith,
    previous_iff e.previous_hash c.previous,
    eq_iff (sha256_json sha256_text e.payload) e.payload_hash,
    eq_iff (sha256_json sha256_text (body_json e.body)) e.hash,
    identity_eq_iff e.identity i,
  )

  -- `append` does not compare the input's project and run with those of the earlier events. If they
  -- differ, the call succeeds all the same, and from then on every replay of the journal fails with
  -- a corrupt identity at the new event.
  pub append_foreign_breaks :
      (input : AppendEventInput) (files : Directory) (d : Event) (es : List Event)
      → replay sha256_text bound files ≡ ok (d ∷ es)
      → d.identity ≢ input.identity
      → input.expected_head ≡ head_hash (d ∷ es)
      → last_epoch (d ∷ es) ≤ input.owner_epoch
      → 1 ≤ input.owner_epoch
      → let (r, files') = append sha256_text bound input files in
        (r ≡ ok (event_of sha256_text input (d ∷ es)))
        × (replay sha256_text bound files' ≡ err (corrupt_identity (length (d ∷ es) + 1)))
  unfolding replay
  append_foreign_breaks input files d es h other expected epoch positive =
      let e : Event = event_of sha256_text input (d ∷ es) in
      let c : Cursor = after start (d ∷ es) in
      let (same, chain) = (replay-ok_iff sha256_text bound files (d ∷ es)).0 h in
      let checked =
        check_foreign c e d.identity (omega (arith, after-index start (d ∷ es)))
          (sym (after_start-previous (d ∷ es))) refl refl
          (after-seen_first (advance start d) d.identity es refl) other in
      let named : check sha256_text bound c (length (d ∷ es) + 1) (stored e)
          ≡ err (corrupt_identity (length (d ∷ es) + 1)) =
        subst
          (λ n.
            check sha256_text bound c n (stored e) ≡ err (corrupt_identity (length (d ∷ es) + 1)))
          (omega (arith, after-index start (d ∷ es))) checked in
      rw (append_writes sha256_text bound input files (d ∷ es) h expected epoch positive) (
        refl,
        rw same (
            rw
              (replay_from-append_one sha256_text bound start (d ∷ es) (length (d ∷ es) + 1)
                (stored e) chain)
              (rw named)),
      )
