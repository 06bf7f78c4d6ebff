-- ===== src/Kernel/Journal/Append.antt =====
-- Appending to a journal that replays.
use apex_vnext.Common.{
  ℕ, ◌+◌, ◌≤◌, ◌<◌, String, ◌≡◌, refl, false, List, [], ◌∷◌, ◌++◌, Option, none, some, ok, err,
  arith, ◌↔◌, ◌⊎◌, inl, length, last?, or_else, All, string_Eq, option_Eq, sym, option_eq_iff,
  last?-append_one,
}
use mathlib.Core.Option
use apex_vnext.Kernel.Canonical.{Text, sha256_json}
use apex_vnext.Kernel.Journal.{
  Identity, EventBody, Event, AppendEventInput, Content, stored, Directory, JournalError, Cursor,
  start, advance, replay, body_json, prepare, prepare_after, publish, append, add_file, has_file,
  head,
}
use apex_vnext.Kernel.Journal.Replay.{
  Admits, Follows, listing, after, replay-ok_iff, replay_from-append_one, check-eq-ok_iff,
}

abbrev pub head_hash : List Event → Option String
head_hash es = Option.map (λ (e : Event). e.hash) (last? es)

abbrev pub last_epoch : List Event → ℕ
last_epoch es = or_else (Option.map (λ (e : Event). e.owner_epoch) (last? es)) 0

pub after-index : (c : Cursor) (es : List Event) → (after c es).index ≡ c.index + length es
after-index c [] = omega arith
after-index c (e ∷ es) = omega (arith, after-index (advance c e) es)

-- `previousHash` after a replay is the digest of the last event.
after-previous :
    (c : Cursor) (e : Event) (es : List Event) → (after c (e ∷ es)).previous ≡ head_hash (e ∷ es)
after-previous c e [] = refl
after-previous c e (d ∷ es) = after-previous (advance c e) d es

pub after_start-previous : (es : List Event) → (after start es).previous ≡ head_hash es
after_start-previous [] = refl
after_start-previous (e ∷ es) = after-previous start e es

after-seen :
    (c : Cursor) (i : Identity) (es : List Event)
    → (c.seen ≡ none) ⊎ (c.seen ≡ some i)
    → All (λ (e : Event). e.identity ≡ i) es
    → ((after c es).seen ≡ none) ⊎ ((after c es).seen ≡ some i)
after-seen c i [] h all_i = h
after-seen c i (e ∷ es) h (p, ps) = after-seen (advance c e) i es (ground arith) ps

add_file-listing :
    (n m : ℕ) (content : Content) (es : List Event)
    → n + length es < m
    → add_file m content (listing n es) ≡ listing n es ++ (m, content) ∷ []
unfolding add_file
add_file-listing n m content [] h = refl
add_file-listing n m content (e ∷ es) h =
    ground (arith, add_file-listing (n + 1) m content es (omega arith))

has_file-listing :
    (n m : ℕ) (es : List Event) → n + length es < m → has_file m (listing n es) ≡ false
unfolding has_file
has_file-listing n m [] h = refl
has_file-listing n m (e ∷ es) h = ground (arith, has_file-listing (n + 1) m es (omega arith))

-- The event that `append` publishes after the events `es`.
abbrev pub body_of : (Text → String) → AppendEventInput → List Event → EventBody
body_of sha256_text input es = record {
  event_id = input.event_id;
  identity = input.identity;
  sequence = length es + 1;
  type = input.type;
  timestamp = input.timestamp;
  owner_epoch = input.owner_epoch;
  previous_hash = head_hash es;
  payload_hash = sha256_json sha256_text input.payload;
  payload = input.payload;
}

abbrev pub event_of : (Text → String) → AppendEventInput → List Event → Event
event_of sha256_text input es =
    let body = body_of sha256_text input es in
    record { body = body; hash = sha256_json sha256_text (body_json body) }

publish-err :
    (e : Event) (files : Directory)
    → ((x : JournalError) → (publish e files).0 ≡ err x → (publish e files).1 ≡ files)
      × ((e' : Event) → (publish e files).0 ≡ ok e' → e' ≡ e)
unfolding publish
publish-err e files = (λ x h. ground arith, λ e' h. ground arith)

module _ (sha256_text : Text → String) (bound : Option Identity) where
  pub prepare_after-ok_iff :
      (input : AppendEventInput) (es : List Event) (e : Event)
      → (prepare_after sha256_text bound input es ≡ ok e) ↔ (
          (input.expected_head ≡ head_hash es)
          × (last_epoch es ≤ input.owner_epoch)
          × (1 ≤ input.owner_epoch)
          × (e ≡ event_of sha256_text input es))
  unfolding prepare_after
  prepare_after-ok_iff input es e = (
    λ h.
        ground
          (arith, option_eq_iff string_Eq.beq string_Eq.beq_iff input.expected_head (head_hash es)),
    λ h.
        ground
          (arith, option_eq_iff string_Eq.beq string_Eq.beq_iff input.expected_head (head_hash es)),
  )

  event_of-Follows :
      (input : AppendEventInput) (es : List Event)
      → Admits bound input.identity
      → All (λ (e : Event). e.identity ≡ input.identity) es
      → Follows sha256_text bound (after start es) (event_of sha256_text input es)
  event_of-Follows input es admitted one = record {
    numbered = omega (arith, after-index start es);
    linked = sym (after_start-previous es);
    payload_digest = refl;
    digest = refl;
    one_run = after-seen start input.identity es (inl refl) one;
    admitted = admitted;
  }

  pub append_writes :
      (input : AppendEventInput) (files : Directory) (es : List Event)
      → replay sha256_text bound files ≡ ok es
      → input.expected_head ≡ head_hash es
      → last_epoch es ≤ input.owner_epoch
      → 1 ≤ input.owner_epoch
      → append sha256_text bound input files ≡ (
        ok (event_of sha256_text input es),
        files ++ (length es + 1, stored (event_of sha256_text input es)) ∷ [],
      )
  unfolding append prepare publish
  append_writes input files es h head epoch positive =
      let (same, chain) = (replay-ok_iff sha256_text bound files es).0 h in
      let prepared =
        (prepare_after-ok_iff input es (event_of sha256_text input es)).1
          (head, epoch, positive, refl) in
      rw (h, prepared)
        (rw same (
          rw (has_file-listing 0 (length es + 1) es (omega arith)) (
            rw (
              add_file-listing 0 (length es + 1) (stored (event_of sha256_text input es)) es
                (omega arith)))))

  pub append_then_replay :
      (input : AppendEventInput) (files : Directory) (es : List Event)
      → replay sha256_text bound files ≡ ok es
      → All (λ (e : Event). e.identity ≡ input.identity) es
      → Admits bound input.identity
      → input.expected_head ≡ head_hash es
      → last_epoch es ≤ input.owner_epoch
      → 1 ≤ input.owner_epoch
      → let e = event_of sha256_text input es in
        let files' = files ++ (length es + 1, stored e) ∷ [] in
        (append sha256_text bound input files ≡ (ok e, files'))
        × (replay sha256_text bound files' ≡ ok (es ++ e ∷ []))
        × (head sha256_text bound files' ≡ ok (some e.hash))
  unfolding replay head
  append_then_replay input files es h one admitted expected epoch positive =
      let e : Event = event_of sha256_text input es in
      let (same, chain) = (replay-ok_iff sha256_text bound files es).0 h in
      let follows = event_of-Follows input es admitted one in
      let checked =
        (check-eq-ok_iff sha256_text bound (after start es) (length es + 1) (stored e) e).1
          (omega (arith, after-index start es), refl, follows) in
      let replayed : replay sha256_text bound (files ++ (length es + 1, stored e) ∷ [])
          ≡ ok (es ++ e ∷ []) =
        rw same (
          rw (replay_from-append_one sha256_text bound start es (length es + 1) (stored e) chain)
            (rw checked)) in
      (
        append_writes input files es h expected epoch positive,
        replayed,
        rw replayed (rw (last?-append_one es e)),
      )

  -- `head` on a journal that replays.
  pub head-replayed :
      (files : Directory) (es : List Event)
      → replay sha256_text bound files ≡ ok es
      → head sha256_text bound files ≡ ok (head_hash es)
  unfolding head
  head-replayed files es h = rw h
