-- ===== src/Kernel/Improvement/Deciding.antt =====
-- Decisions of packages/kernel/src/improvement-store.ts: a proposal has one decision until retention
-- removes it.
use apex_vnext.Common.{
  ℕ, ◌+◌, ◌*◌, ◌≤◌, String, Bool, true, false, ◌≡◌, ◌≢◌, refl, sym, ◌∙◌, ap, inl, inr, ◌⊎◌, List,
  [], ◌∷◌, none, some, ok, err, not, ◌==◌, nat_Eq, string_Eq, if◌then◌else◌, arith, >>=-eq-ok,
  Option-cases, Bool-cases, Result-cases, eq_iff, subst,
}
use apex_vnext.Common.Assoc.{get, put, get-put}
use apex_vnext.Kernel.Canonical.{text_Eq}
use apex_vnext.Kernel.Improvement.{
  ImprovementPolicy, Observation, ImprovementDisk, proposal_not_found, already_decided,
  ImprovementHost, store_observation, DecisionInput, ImprovementDecision, decide,
  delete_observation, remove_file, prune, prune_observations, prune_decisions, is_expired, values,
  new_decision, Proposal, decided, with_decision_status,
}
use apex_vnext.Kernel.Improvement.Steps.{
  ImprovementStep, observes, decides, deletes, prunes, scans, ImprovementReach, begun, stepped,
  ImprovementTrace, resting, onward,
}
use apex_vnext.Kernel.Improvement.Observing.{observe_stages}

-- A predicate of each file.
abbrev Each : (String × ImprovementDecision → Type 0) → List (String × ImprovementDecision) → Type 0
Each p [] = Unit
Each p (f ∷ files) = p f × Each p files

if-Each :
    (p : String × ImprovementDecision → Type 0) (c : Bool)
    (xs ys : List (String × ImprovementDecision))
    → Each p xs
    → Each p ys
    → Each p (if c then xs else ys)
if-Each p true xs ys a b = a
if-Each p false xs ys a b = b

remove_file-Each :
    (p : String × ImprovementDecision → Type 0) (name : String)
    (files : List (String × ImprovementDecision))
    → Each p files
    → Each p (remove_file name files)
unfolding remove_file
remove_file-Each p name [] h = tt
remove_file-Each p name (f ∷ files) (a, h) =
    let rest = remove_file-Each p name files h in if-Each p (not (f.0 == name)) _ _ (a, rest) rest

put-Each :
    (p : String × ImprovementDecision → Type 0) (name : String) (d : ImprovementDecision)
    (files : List (String × ImprovementDecision))
    → p (name, d)
    → Each p files
    → Each p (put files name d)
unfolding put
put-Each p name d [] a h = (a, tt)
put-Each p name d (f ∷ files) a (b, h) =
    if-Each p (f.0 == name) _ _ (a, h) (b, put-Each p name d files a h)

-- A decision lies under the identifier of its proposal.
abbrev IsNamed : String × ImprovementDecision → Type 0
IsNamed f = f.1.proposal_id ≡ f.0

-- A decision of the proposal `id` is `d`.
abbrev IsOnly : String → ImprovementDecision → String × ImprovementDecision → Type 0
IsOnly id d f = f.1.proposal_id ≡ id → f.1 ≡ d

abbrev Holds : String → ImprovementDecision → List (String × ImprovementDecision) → Type 0
Holds id d files = (get files id ≡ some d) × Each (IsOnly id d) files

get-remove_file :
    (name id : String) (files : List (String × ImprovementDecision))
    → name ≢ id
    → get (remove_file name files) id ≡ get files id
unfolding remove_file get
get-remove_file name id [] h = refl
get-remove_file name id ((k, v) ∷ files) h =
    ground (arith, get-remove_file name id files h, eq_iff k name, eq_iff k id)

Named-Only :
    (id : String) (d : ImprovementDecision) (files : List (String × ImprovementDecision))
    → Each IsNamed files
    → get files id ≡ none
    → Each (IsOnly id d) files
unfolding get
Named-Only id d [] h e = tt
Named-Only id d ((k, v) ∷ files) (a, h) e =
    (λ same. absurd (ground (arith, eq_iff k id)), Named-Only id d files h (ground arith))

module _ (host : ImprovementHost) where
  open host use {to_iso, parse_time}

  prune_decisions-Each :
      (p : String × ImprovementDecision → Type 0) (days now : ℕ) (ds : List ImprovementDecision)
      (files : List (String × ImprovementDecision))
      → Each p files
      → Each p (prune_decisions host days now ds files).0
  unfolding prune_decisions
  prune_decisions-Each p days now [] files h = h
  prune_decisions-Each p days now (d ∷ ds) files h =
      elim (is_expired host days now d.decided_at)
        as (λ c.
          Each p
            (if c
              then (
                (prune_decisions host days now ds (remove_file d.proposal_id files)).0,
                (prune_decisions host days now ds (remove_file d.proposal_id files)).1 + 1,
              )
              else prune_decisions host days now ds files).0) [
                | true ↦
                    prune_decisions-Each p days now ds (remove_file d.proposal_id files)
                      (remove_file-Each p d.proposal_id files h)
                | false ↦ prune_decisions-Each p days now ds files h
              ]

  -- The loop over decisions keeps one that is not expired.
  prune_decisions-get :
      (days now : ℕ) (id : String) (d : ImprovementDecision)
      (gs : List (String × ImprovementDecision)) (files : List (String × ImprovementDecision))
      → is_expired host days now d.decided_at ≡ false
      → Each (IsOnly id d) gs
      → get files id ≡ some d
      → get (prune_decisions host days now (values gs) files).0 id ≡ some d
  unfolding prune_decisions
  prune_decisions-get days now id d [] files fresh only e = e
  prune_decisions-get days now id d (g ∷ gs) files fresh (a, only) e =
      elim (Bool-cases (is_expired host days now g.1.decided_at)) [
        | inr kept ↦ ground (arith, prune_decisions-get days now id d gs files fresh only e)
        | inl expired ↦ ground (
          arith,
          prune_decisions-get days now id d gs (remove_file g.1.proposal_id files) fresh only (
              get-remove_file g.1.proposal_id id files
                (λ same. absurd (ground (arith, ap (λ f. f.decided_at) (a same))))
              ∙ e),
        )
      ]

  store-decisions :
      (policy : ImprovementPolicy) (disk : ImprovementDisk) (o : Observation)
      {out : Observation × Bool × ImprovementDisk}
      → store_observation host policy disk o ≡ ok out
      → out.2.decisions ≡ disk.decisions
  unfolding store_observation
  store-decisions policy disk o {out} h =
      elim (Option-cases (get disk.observations o.observation_id)) [
        | inl e ↦ ground arith
        | inr (existing, e) ↦ ground arith
      ]

  delete-decisions :
      (disk : ImprovementDisk) (name : String) {disk' : ImprovementDisk}
      → delete_observation disk name ≡ ok disk'
      → disk'.decisions ≡ disk.decisions
  unfolding delete_observation
  delete-decisions disk name h = ground arith

  prune_observations-decisions :
      (days now : ℕ) (os : List Observation) (disk : ImprovementDisk) {out : ImprovementDisk × ℕ}
      → prune_observations host days now os disk ≡ ok out
      → out.0.decisions ≡ disk.decisions
  unfolding prune_observations
  prune_observations-decisions days now [] disk h = ground arith
  prune_observations-decisions days now (o ∷ os) disk {out} h =
      elim (Bool-cases (is_expired host days now o.observed_at)) [
        | inr kept ↦ prune_observations-decisions days now os disk {out = out} (ground arith)
        | inl expired ↦ elim (Result-cases (delete_observation disk o.observation_id)) [
          | inr (e, failed) ↦ absurd (ground arith)
          | inl (left, a) ↦ elim (Result-cases (prune_observations host days now os left)) [
            | inr (e, failed) ↦ absurd (ground arith)
            | inl (rest, b) ↦ ground (
              arith,
              delete-decisions disk o.observation_id a,
              prune_observations-decisions days now os left b,
            )
          ]
        ]
      ]

  decide_stages :
      (disk : ImprovementDisk) (i : DecisionInput) (now : ℕ)
      {out : ImprovementDecision × ImprovementDisk}
      → decide host disk i now ≡ ok out
      → (get disk.decisions i.proposal_id ≡ none)
        × (out.0 ≡ new_decision host i now)
        × (out.1.decisions ≡ put disk.decisions i.proposal_id (new_decision host i now))
  unfolding decide
  decide_stages disk i now h = elim (Option-cases (get disk.decisions i.proposal_id)) [
    | inl e ↦ (e, ground arith, ground arith)
    | inr (d, e) ↦ absurd (ground arith)
  ]

  -- What a step does to the decisions.
  data Change (policy : ImprovementPolicy) (now : ℕ) (disk disk' : ImprovementDisk) : Type 0 where
    same : disk'.decisions ≡ disk.decisions → Change policy now disk disk'
    added :
        (i : DecisionInput)
        → get disk.decisions i.proposal_id ≡ none
        → disk'.decisions ≡ put disk.decisions i.proposal_id (new_decision host i now)
        → Change policy now disk disk'
    swept :
        disk'.decisions
          ≡ (prune_decisions host policy.decision_days now (values disk.decisions) disk.decisions).0
        → Change policy now disk disk'

  Step-Change :
      (policy : ImprovementPolicy) (now : ℕ) {disk disk' : ImprovementDisk}
      → ImprovementStep host policy now disk disk'
      → Change policy now disk disk'
  unfolding prune
  Step-Change policy now {disk} (observes i first h) =
      let (redacted, a, b, c, d) = observe_stages host policy disk i first now h in
      same (store-decisions policy disk _ d)
  Step-Change policy now {disk} (decides i h) =
      let (a, b, c) = decide_stages disk i now h in added i a c
  Step-Change policy now {disk} (deletes name h) = same (delete-decisions disk name h)
  Step-Change policy now {disk} (prunes {out} h) =
      let (left, a, b) =
        >>=-eq-ok
          (prune_observations host policy.observation_days now (values disk.observations) disk) _
          h in
      let e =
        prune_observations-decisions policy.observation_days now (values disk.observations) disk
          a in
      swept (ground (arith, e))
  Step-Change policy now (scans ps) = same refl

  Reach-Named :
      (policy : ImprovementPolicy) {disk : ImprovementDisk}
      → ImprovementReach host policy disk
      → Each IsNamed disk.decisions
  Reach-Named policy (begun e f) = subst (Each IsNamed) (sym f) tt
  Reach-Named policy (stepped {disk} {disk'} now reach step) =
      after (Step-Change policy now step) (Reach-Named policy reach)
    where
      after :
          {d d' : ImprovementDisk}
          → Change policy now d d'
          → Each IsNamed d.decisions
          → Each IsNamed d'.decisions
      after {d} (same e) named = subst (Each IsNamed) (sym e) named
      after {d} (added i free e) named =
          subst (Each IsNamed) (sym e)
            (put-Each IsNamed i.proposal_id (new_decision host i now) d.decisions refl named)
      after {d} (swept e) named = subst (Each IsNamed) (sym e) (
          prune_decisions-Each IsNamed policy.decision_days now (values d.decisions) d.decisions
            named)

  Change-Holds :
      (policy : ImprovementPolicy) (now : ℕ) (id : String) (d : ImprovementDecision)
      {disk disk' : ImprovementDisk}
      → is_expired host policy.decision_days now d.decided_at ≡ false
      → Change policy now disk disk'
      → Holds id d disk.decisions
      → Holds id d disk'.decisions
  Change-Holds policy now id d fresh (same e) h = subst (Holds id d) (sym e) h
  Change-Holds policy now id d {disk} fresh (added i free e) (at, only) =
      let other : i.proposal_id ≢ id = (λ q. absurd (ground arith)) in
      subst (Holds id d) (sym e) (
        ground (
          arith,
          get-put disk.decisions i.proposal_id (new_decision host i now) id,
          eq_iff i.proposal_id id,
        ),
        put-Each (IsOnly id d) i.proposal_id (new_decision host i now) disk.decisions
            (λ q. absurd (other q)) only,
      )
  Change-Holds policy now id d {disk} fresh (swept e) (at, only) = subst (Holds id d) (sym e) (
    prune_decisions-get policy.decision_days now id d disk.decisions disk.decisions fresh only at,
    prune_decisions-Each (IsOnly id d) policy.decision_days now (values disk.decisions)
        disk.decisions only,
  )

  new_decision-fresh :
      (laws : (t : ℕ) → parse_time (to_iso t) ≡ some t) (days t now : ℕ) (i : DecisionInput)
      → now ≤ t + days * 86400000
      → is_expired host days now (new_decision host i t).decided_at ≡ false
  new_decision-fresh laws days t now i h = ground (arith, laws t)

  Trace-Holds :
      (laws : (t : ℕ) → parse_time (to_iso t) ≡ some t) (policy : ImprovementPolicy) (t : ℕ)
      (i : DecisionInput) {disk disk' : ImprovementDisk}
      → ImprovementTrace host policy (t + policy.decision_days * 86400000) disk disk'
      → Holds i.proposal_id (new_decision host i t) disk.decisions
      → Holds i.proposal_id (new_decision host i t) disk'.decisions
  Trace-Holds laws policy t i resting h = h
  Trace-Holds laws policy t i (onward now trace l step) h =
      Change-Holds policy now i.proposal_id (new_decision host i t)
        (new_decision-fresh laws policy.decision_days t now i l) (Step-Change policy now step)
        (Trace-Holds laws policy t i trace h)

  decide_refused :
      (disk : ImprovementDisk) (j : DecisionInput) (now : ℕ) (d : ImprovementDecision)
      → get disk.decisions j.proposal_id ≡ some d
      → (decide host disk j now ≡ err proposal_not_found)
        ⊎ (decide host disk j now ≡ err already_decided)
  unfolding decide
  decide_refused disk j now d h = ground arith

  status_of :
      (disk : ImprovementDisk) (p : Proposal) (d : ImprovementDecision)
      → get disk.decisions p.proposal_id ≡ some d
      → (with_decision_status disk p).status ≡ decided d.decision
  unfolding with_decision_status
  status_of disk p d h = ground arith

  -- A decision stands: until its retention is over, whatever steps are made after it, prunings included,
  -- the proposal is listed with this decision as its status, and every further decision on it is
  -- refused. The conversions of times are asked to be inverse to each other.
  pub decision_stands :
      (laws : (t : ℕ) → parse_time (to_iso t) ≡ some t) (policy : ImprovementPolicy)
      {disk decided_disk later : ImprovementDisk} (i : DecisionInput) (t : ℕ)
      {d : ImprovementDecision}
      → ImprovementReach host policy disk
      → decide host disk i t ≡ ok (d, decided_disk)
      → ImprovementTrace host policy (t + policy.decision_days * 86400000) decided_disk later
      → (p : Proposal) → p.proposal_id ≡ i.proposal_id
      → (j : DecisionInput) → j.proposal_id ≡ i.proposal_id
      → (now : ℕ)
      → ((with_decision_status later p).status ≡ decided i.decision)
        × ((decide host later j now ≡ err proposal_not_found)
            ⊎ (decide host later j now ≡ err already_decided))
  decision_stands laws policy {disk} {decided_disk} {later} i t reach h trace p same_p j same_j
        now =
      let (free, is_new, e) = decide_stages disk i t h in
      let d = new_decision host i t in
      let only = Named-Only i.proposal_id d disk.decisions (Reach-Named policy reach) free in
      let start : Holds i.proposal_id d decided_disk.decisions =
        subst (Holds i.proposal_id d) (sym e) (
          ground (
            arith,
            get-put disk.decisions i.proposal_id d i.proposal_id,
            eq_iff i.proposal_id i.proposal_id,
          ),
          put-Each (IsOnly i.proposal_id d) i.proposal_id d disk.decisions (λ q. refl) only,
        ) in
      let (at, rest) = Trace-Holds laws policy t i trace start in
      (
        status_of later p d (ap (get later.decisions) same_p ∙ at),
        decide_refused later j now d (ap (get later.decisions) same_j ∙ at),
      )
