-- ===== src/Kernel/Improvement/Scan/Exact.antt =====
-- What a scan of packages/kernel/src/improvement-store.ts finds and writes.
use apex_vnext.Common.{
  ℕ, ◌+◌, ◌<◌, String, Bool, true, false, ◌&&◌, ◌≡◌, refl, sym, ◌∙◌, ap, inl, inr, List, [], ◌∷◌,
  Option, none, some, ok, not, ◌==◌, nat_Eq, string_Eq, leb, any, includes, map, filter, length,
  last?, arith, Option-cases, Bool-cases, Result-cases, eq_iff, subst,
}
use apex_vnext.Common.Assoc.{get, put, get-put}
use apex_vnext.Kernel.Canonical.Sorting.{sort_texts, place_text}
use apex_vnext.Kernel.Canonical.{Text, text_Eq, units}
use apex_vnext.Kernel.Improvement.{
  ImprovementPolicy, Observation, Proposal, ImprovementDisk, ImprovementHost, with_decision_status,
}
use apex_vnext.Kernel.Improvement.Steps.{ImprovementStep, scans}
use apex_vnext.Kernel.Improvement.Scan.{
  Recurrence, unique, place_by, sort_by, run_ids_of, recurrence_from, recurrence_of, new_proposal,
  propose, target_for, scan_groups, counted_of, scan,
}

length-place_text : (t : Text) (ts : List Text) → length (place_text t ts) ≡ length ts + 1
unfolding place_text
length-place_text t [] = refl
length-place_text t (u ∷ us) = ground (arith, length-place_text t us)

length-sort_texts : (ts : List Text) → length (sort_texts ts) ≡ length ts
unfolding sort_texts
length-sort_texts [] = refl
length-sort_texts (t ∷ ts) =
    ground (arith, length-place_text t (sort_texts ts), length-sort_texts ts)

module _ {A : Type 0} (earlier : A → A → Bool) where
  length-place_by : (x : A) (xs : List A) → length (place_by earlier x xs) ≡ length xs + 1
  unfolding place_by
  length-place_by x [] = refl
  length-place_by x (y ∷ ys) = ground (arith, length-place_by x ys)

  length-sort_by : (xs : List A) → length (sort_by earlier xs) ≡ length xs
  unfolding sort_by
  length-sort_by [] = refl
  length-sort_by (x ∷ xs) =
      ground (arith, length-place_by x (sort_by earlier xs), length-sort_by xs)

includes-place_by :
    (earlier : String → String → Bool) (k x : String) (xs : List String)
    → includes k (place_by earlier x xs) ≡ includes k (x ∷ xs)
unfolding place_by
includes-place_by earlier k x [] = refl
includes-place_by earlier k x (y ∷ ys) = ground (arith, includes-place_by earlier k x ys)

includes-sort_by :
    (earlier : String → String → Bool) (k : String) (xs : List String)
    → includes k (sort_by earlier xs) ≡ includes k xs
unfolding sort_by
includes-sort_by earlier k [] = refl
includes-sort_by earlier k (x ∷ xs) =
    ground
      (arith, includes-place_by earlier k x (sort_by earlier xs), includes-sort_by earlier k xs)

includes-filter-not :
    (k x : String) (xs : List String)
    → includes k (filter (λ y. not (y == x)) xs) ≡ (includes k xs && not (k == x))
includes-filter-not k x [] = refl
includes-filter-not k x (y ∷ ys) =
    ground (arith, includes-filter-not k x ys, eq_iff y x, eq_iff y k, eq_iff k x)

includes-unique : (k : String) (xs : List String) → includes k (unique xs) ≡ includes k xs
unfolding unique
includes-unique k [] = refl
includes-unique k (x ∷ xs) =
    ground
      (arith, includes-filter-not k x (unique xs), includes-unique k xs, eq_iff x k, eq_iff k x)

-- The observations of a pattern.
abbrev pub of_pattern : String → List Observation → List Observation
of_pattern k os = filter (λ o. o.pattern_key == k) os

of_pattern-none :
    (k : String) (os : List Observation)
    → includes k (map (λ o. o.pattern_key) os) ≡ false
    → of_pattern k os ≡ []
of_pattern-none k [] h = refl
of_pattern-none k (o ∷ os) h = ground (arith, of_pattern-none k os)

-- The number of distinct runs of some observations.
abbrev pub run_count : List Observation → ℕ
run_count os = length (unique (map (λ o. o.input.run_id) os))

abbrev pub has_pattern : String → List Recurrence → Bool
has_pattern k rs = any (λ r. r.pattern_key == k) rs

abbrev pub first_some : Option Proposal → Option Proposal → Option Proposal
first_some none q = q
first_some (some p) q = some p

last?-cons :
    (x : Observation) (xs : List Observation) → (y : Observation) × (last? (x ∷ xs) ≡ some y)
last?-cons x [] = (x, refl)
last?-cons x (y ∷ ys) = last?-cons y ys

module _ (host : ImprovementHost) where
  open host use {before}

  recurrence_from-some :
      (policy : ImprovementPolicy) (project : Text) (now : ℕ) (key : String)
      (items ordered : List Observation)
      → 0 < length ordered
      → (r : Recurrence) × (recurrence_from host policy project now key items ordered ≡ some r)
        × (r.pattern_key ≡ key)
  unfolding recurrence_from
  recurrence_from-some policy project now key items [] h = absurd (omega arith)
  recurrence_from-some policy project now key items (o ∷ os) h =
      let (last, e) = last?-cons o os in
      elim (Option-cases (recurrence_from host policy project now key items (o ∷ os))) [
        | inl f ↦ absurd (ground arith)
        | inr (r, f) ↦ (r, f, ground arith)
      ]

  recurrence_of-none :
      (policy : ImprovementPolicy) (project : Text) (now : ℕ) (key : String)
      (items : List Observation)
      → leb policy.threshold (run_count items) ≡ false
      → recurrence_of host policy project now key items ≡ none
  unfolding recurrence_of run_ids_of
  recurrence_of-none policy project now key items h =
      ground (arith, length-sort_texts (unique (map (λ o. o.input.run_id) items)))

  recurrence_of-some :
      (policy : ImprovementPolicy) (project : Text) (now : ℕ) (key : String)
      (items : List Observation)
      → 0 < policy.threshold
      → leb policy.threshold (run_count items) ≡ true
      → (r : Recurrence) × (recurrence_of host policy project now key items ≡ some r)
        × (r.pattern_key ≡ key)
  unfolding recurrence_of run_ids_of unique
  recurrence_of-some policy project now key [] pos h = absurd (ground arith)
  recurrence_of-some policy project now key (o ∷ os) pos h =
      let ordered = sort_by (λ a b. before a.observed_at b.observed_at) (o ∷ os) in
      let (r, e, named) =
        recurrence_from-some policy project now key (o ∷ os) ordered
          (ground (arith, length-sort_by (λ a b. before a.observed_at b.observed_at) (o ∷ os))) in
      (r, ground (arith, length-sort_texts (unique (map (λ x. x.input.run_id) (o ∷ os)))), named)

  -- What a step of the loop keeps of the disk.
  abbrev Grows : ImprovementDisk → ImprovementDisk → Type 0
  Grows disk disk' =
      (disk' ≡ record disk { proposals = disk'.proposals })
      × ((id : String) (p : Proposal)
          → get disk.proposals id ≡ some p
          → get disk'.proposals id ≡ some p)

  propose-Grows :
      (policy : ImprovementPolicy) (disk : ImprovementDisk) (r : Recurrence)
      {out : Proposal × ImprovementDisk}
      → propose host policy disk r ≡ ok out
      → Grows disk out.1
  unfolding propose
  propose-Grows policy disk r {out} h =
      elim (Option-cases (target_for r.category policy.proposal_targets)) [
        | inl e ↦ absurd (ground arith)
        | inr (target, e) ↦
            elim (Option-cases (get disk.proposals (new_proposal host r target).proposal_id)) [
              | inr (existing, f) ↦
                  let q : out.1 ≡ disk = ground arith in
                  subst (Grows disk) (sym q) (refl, λ id p a. a)
              | inl f ↦
                  let n : Proposal = new_proposal host r target in
                  let q : out.1 ≡ record disk { proposals = put disk.proposals n.proposal_id n } =
                    ground arith in
                  subst (Grows disk) (sym q) (
                    refl,
                    λ id p a.
                        ground (
                          arith,
                          get-put disk.proposals n.proposal_id n id,
                          eq_iff n.proposal_id id,
                        ),
                  )
            ]
      ]

  trans-Grows : (a b c : ImprovementDisk) → Grows a b → Grows b c → Grows a c
  trans-Grows a b c (same, kept) (same', kept') =
      (cc (same, same'), λ id p h. kept' id p (kept id p h))

  -- The outcome of the loop over the groups `keys`.
  abbrev IsScanned :
      ImprovementPolicy
      → List Observation
      → List String
      → ImprovementDisk
      → List Recurrence × List Proposal × ImprovementDisk
      → Type 0
  IsScanned policy counted keys disk out =
      ((k : String)
        → has_pattern k out.0
          ≡ (includes k keys && leb policy.threshold (run_count (of_pattern k counted))))
      × Grows disk out.2

  scan_groups-IsScanned :
      (policy : ImprovementPolicy) (project : Text) (now : ℕ) (counted : List Observation)
      (keys : List String) (disk : ImprovementDisk)
      {out : List Recurrence × List Proposal × ImprovementDisk}
      → 0 < policy.threshold
      → scan_groups host policy project now counted keys disk ≡ ok out
      → IsScanned policy counted keys disk out
  unfolding scan_groups
  scan_groups-IsScanned policy project now counted [] disk {out} pos h =
      let q : out ≡ ([], [], disk) = ground arith in
      subst (IsScanned policy counted [] disk) (sym q) ((λ k. refl), (refl, λ id p a. a))
  scan_groups-IsScanned policy project now counted (key ∷ keys) disk {out} pos h =
      elim (Bool-cases (leb policy.threshold (run_count (of_pattern key counted)))) [
        | inr few ↦
            let none_is = recurrence_of-none policy project now key (of_pattern key counted) few in
            let (exact, grows) =
              scan_groups-IsScanned policy project now counted keys disk {out = out} pos
                (ground arith) in
            ((λ k. ground (arith, exact k, eq_iff key k)), grows)
        | inl enough ↦
            let (r, some_is, named) =
              recurrence_of-some policy project now key (of_pattern key counted) pos enough in
            elim (Result-cases (propose host policy disk r)) [
              | inr (e, failed) ↦ absurd (ground arith)
              | inl (proposed, a) ↦
                  elim (Result-cases
                    (scan_groups host policy project now counted keys proposed.1)) [
                      | inr (e, failed) ↦ absurd (ground arith)
                      | inl (rest, b) ↦
                          let (exact, grows) =
                            scan_groups-IsScanned policy project now counted keys proposed.1 pos
                              b in
                          let q : out ≡ (
                            r ∷ rest.0,
                            with_decision_status proposed.1 proposed.0 ∷ rest.1,
                            rest.2,
                          ) =
                            ground arith in
                          subst (IsScanned policy counted (key ∷ keys) disk) (sym q) (
                            (λ k. ground (arith, exact k, eq_iff key k, ap (λ x. x == k) named)),
                            trans-Grows disk proposed.1 rest.2 (propose-Grows policy disk r a)
                                grows,
                          )
                    ]
            ]
      ]

  -- A scan that succeeds reports exactly the patterns that the observations that count have in at least
  -- as many distinct runs as the threshold asks for, if it asks for at least one. It writes nothing but
  -- proposals, and a proposal that was there stays as it was.
  pub scan-exact :
      (policy : ImprovementPolicy) (disk : ImprovementDisk) (project : Text) (now : ℕ)
      {recurrences : List Recurrence} {proposals : List Proposal} {disk' : ImprovementDisk}
      → 0 < policy.threshold
      → scan host policy disk project now ≡ ok (recurrences, proposals, disk')
      → ((k : String)
          → has_pattern k recurrences
            ≡ leb policy.threshold
                (run_count (of_pattern k (counted_of host policy project now disk))))
        × (disk' ≡ record disk { proposals = disk'.proposals })
        × ((id : String)
            → get disk'.proposals id ≡ first_some (get disk.proposals id) (get disk'.proposals id))
  unfolding scan unique
  scan-exact policy disk project now pos h =
      let counted = counted_of host policy project now disk in
      let patterns = map (λ (o : Observation). o.pattern_key) counted in
      let earlier : String → String → Bool = (λ a b. before (units a) (units b)) in
      let (exact, (same, kept)) =
        scan_groups-IsScanned policy project now counted (sort_by earlier (unique patterns)) disk
          pos h in
      (
        (λ k. exact k ∙ elim (Bool-cases (includes k patterns)) [
          | inl at ↦
              ground
                (arith, includes-sort_by earlier k (unique patterns), includes-unique k patterns)
          | inr off ↦ ground (
            arith,
            includes-sort_by earlier k (unique patterns),
            includes-unique k patterns,
            ap run_count (of_pattern-none k counted off),
          )
        ]),
        same,
        λ id. elim (Option-cases (get disk.proposals id)) [
          | inl e ↦ ground (arith, e)
          | inr (p, e) ↦ ground (arith, kept id p e)
        ],
      )

  -- The step relation of the store covers a scan.
  scan-ImprovementStep :
      (policy : ImprovementPolicy) (disk : ImprovementDisk) (project : Text) (now t : ℕ)
      {recurrences : List Recurrence} {proposals : List Proposal} {disk' : ImprovementDisk}
      → 0 < policy.threshold
      → scan host policy disk project now ≡ ok (recurrences, proposals, disk')
      → ImprovementStep host policy t disk disk'
  scan-ImprovementStep policy disk project now t {disk' = disk'} pos h =
      let (exact, same, kept) = scan-exact policy disk project now pos h in
      subst (ImprovementStep host policy t disk) (sym same) (scans disk'.proposals)
