-- ===== src/Kernel/Journal/Replay.antt =====
-- What a directory that replays holds, and when it replays.
use apex_vnext.Common.{
  ℕ, ◌+◌, String, ◌≡◌, refl, true, false, List, [], ◌∷◌, ◌++◌, Option, none, some, ok, arith,
  eq_iff, ◌↔◌, ◌⊎◌, inl, or_else, ◌>>=◌, >>=-eq-ok, bind_assoc, option_eq_iff, subst, string_Eq,
  option_Eq, option_eq,
}
use apex_vnext.Kernel.Canonical.{Text, text_eq_iff, sha256_json}
use apex_vnext.Kernel.Journal.{
  Identity, Event, Content, stored, Directory, Cursor, start, advance, check, replay_from, replay,
  body_json, identity_eq, is_other,
}

pub identity_eq_iff : (a b : Identity) → (identity_eq a b ≡ true) ↔ (a ≡ b)
unfolding identity_eq
identity_eq_iff a b = (
  λ h. ground (arith, text_eq_iff a.project_id b.project_id, text_eq_iff a.run_id b.run_id),
  λ h. ground (arith, text_eq_iff a.project_id b.project_id, text_eq_iff a.run_id b.run_id),
)

-- The journal may be bound to a run, and the event belongs to it.
abbrev pub Admits : Option Identity → Identity → Type 0
Admits bound i = (bound ≡ none) ⊎ (bound ≡ some i)

is_other_iff :
    (bound : Option Identity) (i : Identity) → (is_other bound i ≡ false) ↔ Admits bound i
unfolding is_other
is_other_iff none i = (λ h. inl refl, λ h. refl)
is_other_iff (some b) i =
    (λ h. ground (arith, identity_eq_iff i b), λ h. ground (arith, identity_eq_iff i b))

one_run_iff :
    (seen : Option Identity) (i : Identity)
    → (identity_eq i (or_else seen i) ≡ true) ↔ ((seen ≡ none) ⊎ (seen ≡ some i))
one_run_iff none i = (λ h. inl refl, λ h. (identity_eq_iff i i).1 refl)
one_run_iff (some s) i =
    (λ h. ground (arith, identity_eq_iff i s), λ h. ground (arith, identity_eq_iff i s))

pub previous_iff : (a b : Option String) → (option_eq string_Eq.beq a b ≡ true) ↔ (a ≡ b)
previous_iff = option_eq_iff string_Eq.beq string_Eq.beq_iff

module _ (sha256_text : Text → String) (bound : Option Identity) where
  -- An event that follows what was replayed before it, and whose digests are right.
  pub record Follows (c : Cursor) (e : Event) : Type 0 where
    pub numbered : e.sequence ≡ c.index + 1
    pub linked : e.previous_hash ≡ c.previous
    pub payload_digest : sha256_json sha256_text e.payload ≡ e.payload_hash
    pub digest : sha256_json sha256_text (body_json e.body) ≡ e.hash
    pub one_run : (c.seen ≡ none) ⊎ (c.seen ≡ some e.identity)
    pub admitted : Admits bound e.identity

  pub check-eq-ok_iff :
      (c : Cursor) (name : ℕ) (content : Content) (e : Event)
      → (check sha256_text bound c name content ≡ ok e)
        ↔ ((name ≡ c.index + 1) × (content ≡ stored e) × Follows c e)
  unfolding check
  check-eq-ok_iff c name content e = (
    λ h. ground (
      arith,
      previous_iff e.previous_hash c.previous,
      eq_iff (sha256_json sha256_text e.payload) e.payload_hash,
      eq_iff (sha256_json sha256_text (body_json e.body)) e.hash,
      one_run_iff c.seen e.identity,
      is_other_iff bound e.identity,
    ),
    λ h. ground (
      arith,
      previous_iff e.previous_hash c.previous,
      eq_iff (sha256_json sha256_text e.payload) e.payload_hash,
      eq_iff (sha256_json sha256_text (body_json e.body)) e.hash,
      one_run_iff c.seen e.identity,
      is_other_iff bound e.identity,
    ),
  )

-- The files that hold the events, numbered from `n + 1`.
abbrev pub listing : ℕ → List Event → Directory
listing n [] = []
listing n (e ∷ es) = (n + 1, stored e) ∷ listing (n + 1) es

abbrev pub after : Cursor → List Event → Cursor
after c [] = c
after c (e ∷ es) = after (advance c e) es

module _ (sha256_text : Text → String) (bound : Option Identity) where
  -- Every event follows the ones before it.
  abbrev pub Chain : Cursor → List Event → Type 0
  Chain c [] = Unit
  Chain c (e ∷ es) = Follows sha256_text bound c e × Chain (advance c e) es

  replay_from_sound :
      (c : Cursor) (files : Directory) (es : List Event)
      → replay_from sha256_text bound c files ≡ ok es
      → (files ≡ listing c.index es) × Chain c es
  unfolding replay_from
  replay_from_sound c [] [] h = (refl, tt)
  replay_from_sound c [] (e ∷ es) h = cc
  replay_from_sound c ((name, content) ∷ files) es h =
      let (e, checked, h') = >>=-eq-ok (check sha256_text bound c name content) _ h in
      let (rest, replayed, h'') =
        >>=-eq-ok (replay_from sha256_text bound (advance c e) files) _ h' in
      let (numbered, there, follows) =
        (check-eq-ok_iff sha256_text bound c name content e).0 checked in
      let (same, chain) = replay_from_sound (advance c e) files rest replayed in
      let eq : e ∷ rest ≡ es = cc h'' in
      subst (λ l. ((name, content) ∷ files ≡ listing c.index l) × Chain c l) eq
        (cc (numbered, there, same), (follows, chain))

  -- One more file behind a chain: the outcome is that of its check.
  pub replay_from-append_one :
      (c : Cursor) (es : List Event) (name : ℕ) (content : Content)
      → Chain c es
      → replay_from sha256_text bound c (listing c.index es ++ (name, content) ∷ [])
        ≡ (check sha256_text bound (after c es) name content >>= λ e. ok (es ++ e ∷ []))
  unfolding replay_from
  replay_from-append_one c [] name content h = refl
  replay_from-append_one c (e ∷ es) name content (f, fs) =
      rw
        (
          (check-eq-ok_iff sha256_text bound c (c.index + 1) (stored e) e).1 (refl, refl, f),
          replay_from-append_one (advance c e) es name content fs,
        )
        (bind_assoc (check sha256_text bound (after (advance c e) es) name content) _ _)

  replay_from_complete :
      (c : Cursor) (es : List Event)
      → Chain c es
      → replay_from sha256_text bound c (listing c.index es) ≡ ok es
  unfolding replay_from
  replay_from_complete c [] h = refl
  replay_from_complete c (e ∷ es) (f, fs) = rw (
    (check-eq-ok_iff sha256_text bound c (c.index + 1) (stored e) e).1 (refl, refl, f),
    replay_from_complete (advance c e) es fs,
  )

  -- A directory replays exactly when its files are numbered from 1 with no gap and hold a chain of
  -- events: each one links to the digest of the one before, has right digests of its payload and of
  -- itself, and belongs to one run, which is the bound one if the journal is bound. The events are
  -- then returned in that order.
  pub replay-ok_iff :
      (files : Directory) (es : List Event)
      → (replay sha256_text bound files ≡ ok es) ↔ ((files ≡ listing 0 es) × Chain start es)
  unfolding replay
  replay-ok_iff files es =
      (λ h. replay_from_sound start files es h, λ h. rw (h.0) (replay_from_complete start es h.1))
