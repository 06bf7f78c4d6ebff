-- ===== src/Kernel/Improvement/Observing.antt =====
-- Observations of packages/kernel/src/improvement-store.ts: one that is made again, and their limit.
use apex_vnext.Common.{
  ℕ, ◌+◌, ◌≤◌, String, Bool, true, ◌≡◌, ◌∙◌, ap, inl, inr, List, [], ◌∷◌, Option, none, some, ok,
  nat_Eq, string_Eq, length, arith, >>=-eq-ok, Option-cases, Bool-cases, Result-cases, eq_iff,
}
use apex_vnext.Common.Assoc.{get, put, get-put}
use apex_vnext.Kernel.Canonical.{Text, text_Eq, text_eq_iff}
use apex_vnext.Kernel.Improvement.{
  ImprovementPolicy, ObservationInput, Observation, ImprovementDisk, ImprovementHost,
  sanitized_statement, check_input, observed_text, check_time, new_observation, store_observation,
  observe, decide, delete_observation, remove_file, prune, prune_observations, is_expired, values,
}
use apex_vnext.Kernel.Improvement.Steps.{
  ImprovementStep, observes, decides, deletes, prunes, scans, ImprovementReach, begun, stepped,
}

length-put :
    (files : List (String × Observation)) (name : String) (o : Observation)
    → length (put files name o) ≤ length files + 1
unfolding put
length-put [] name o = omega arith
length-put ((k, v) ∷ files) name o = ground (arith, length-put files name o)

module _ (host : ImprovementHost) where
  open host use {to_iso, parse_time}

  pub observe_stages :
      (policy : ImprovementPolicy) (disk : ImprovementDisk) (i : ObservationInput) (first now : ℕ)
      {out : Observation × Bool × ImprovementDisk}
      → observe host policy disk i first now ≡ ok out
      → (redacted : Text × ℕ) × (check_input host policy i ≡ ok tt)
        × (sanitized_statement host i.statement policy.statement_characters ≡ ok redacted)
        × (check_time host (observed_text host i.observed_at first) now ≡ ok tt)
        × (store_observation host policy disk
              (new_observation host i (observed_text host i.observed_at first) redacted)
            ≡ ok out)
  unfolding observe
  observe_stages policy disk i first now h =
      let (u, a, h') = >>=-eq-ok (check_input host policy i) _ h in
      let (redacted, b, h'') =
        >>=-eq-ok (sanitized_statement host i.statement policy.statement_characters) _ h' in
      let (w, c, d) =
        >>=-eq-ok (check_time host (observed_text host i.observed_at first) now) _ h'' in
      (redacted, a, b, c, d)

  -- A store under an identifier that has a file returns what the file has.
  store_known :
      (policy : ImprovementPolicy) (disk : ImprovementDisk) (o existing : Observation)
      → get disk.observations o.observation_id ≡ some existing
      → store_observation host policy disk o ≡ ok (existing, true, disk)
  unfolding store_observation
  store_known policy disk o existing h = ground arith

  store-get :
      (policy : ImprovementPolicy) (disk : ImprovementDisk) (o : Observation)
      {out : Observation × Bool × ImprovementDisk}
      → store_observation host policy disk o ≡ ok out
      → get out.2.observations o.observation_id ≡ some out.0
  unfolding store_observation
  store-get policy disk o {out} h = elim (Option-cases (get disk.observations o.observation_id)) [
    | inl e ↦ ground (
      arith,
      get-put disk.observations o.observation_id o o.observation_id,
      eq_iff o.observation_id o.observation_id,
    )
    | inr (existing, e) ↦ ground arith
  ]

  store-length :
      (policy : ImprovementPolicy) (disk : ImprovementDisk) (o : Observation)
      {out : Observation × Bool × ImprovementDisk}
      → store_observation host policy disk o ≡ ok out
      → length disk.observations ≤ policy.observations
      → length out.2.observations ≤ policy.observations
  unfolding store_observation
  store-length policy disk o {out} h l =
      elim (Option-cases (get disk.observations o.observation_id)) [
        | inl e ↦ ground (arith, length-put disk.observations o.observation_id o)
        | inr (existing, e) ↦ ground arith
      ]

  later_time :
      (laws : (t : ℕ) → parse_time (to_iso t) ≡ some t) (at : Option Text)
      (first now first' now' : ℕ)
      → check_time host (observed_text host at first) now ≡ ok tt
      → now ≤ now'
      → first' ≤ now'
      → check_time host (observed_text host at first') now' ≡ ok tt
  unfolding check_time
  later_time laws none first now first' now' h l m =
      ground (arith, laws first', text_eq_iff (to_iso first') (to_iso first'))
  later_time laws (some t) first now first' now' h l m = elim (Option-cases (parse_time t)) [
    | inl e ↦ absurd (ground arith)
    | inr (time, e) ↦ ground arith
  ]

  same_id :
      (i : ObservationInput) (at at' : Text) (redacted : Text × ℕ) (disk : ImprovementDisk)
      (o : Observation)
      → get disk.observations (new_observation host i at redacted).observation_id ≡ some o
      → get disk.observations (new_observation host i at' redacted).observation_id ≡ some o
  unfolding new_observation
  same_id i at at' redacted disk o e = e

  observe_from :
      (policy : ImprovementPolicy) (disk : ImprovementDisk) (i : ObservationInput) (first now : ℕ)
      (redacted : Text × ℕ)
      → check_input host policy i ≡ ok tt
      → sanitized_statement host i.statement policy.statement_characters ≡ ok redacted
      → check_time host (observed_text host i.observed_at first) now ≡ ok tt
      → observe host policy disk i first now
        ≡ store_observation host policy disk
            (new_observation host i (observed_text host i.observed_at first) redacted)
  unfolding observe
  observe_from policy disk i first now redacted a b c = cc (a, b, c)

  -- An observation that is made again, at a later time or after more retries, is the first one: it is
  -- reported as known, no file changes, and the limit of observations does not matter.
  pub observe_again :
      (laws : (t : ℕ) → parse_time (to_iso t) ≡ some t) (policy : ImprovementPolicy)
      (disk : ImprovementDisk) (i : ObservationInput) (first now first' now' : ℕ) {o : Observation}
      {known : Bool} {disk' : ImprovementDisk}
      → observe host policy disk i first now ≡ ok (o, known, disk')
      → now ≤ now'
      → first' ≤ now'
      → observe host policy disk' i first' now' ≡ ok (o, true, disk')
  unfolding observe
  observe_again laws policy disk i first now first' now' {o} {known} {disk'} h l m =
      let (redacted, a, b, c, d) = observe_stages policy disk i first now h in
      let d' =
        store_known policy disk'
          (new_observation host i (observed_text host i.observed_at first') redacted) o
          (same_id i (observed_text host i.observed_at first)
            (observed_text host i.observed_at first') redacted disk' o
            (store-get policy disk _ d)) in
      let c' = later_time laws i.observed_at first now first' now' c l m in
      observe_from policy disk' i first' now' redacted a b c' ∙ d'

length-remove_file :
    {V : Type 0} (name : String) (files : List (String × V))
    → length (remove_file name files) ≤ length files
unfolding remove_file
length-remove_file name [] = omega arith
length-remove_file name ((k, v) ∷ files) = ground (arith, length-remove_file name files)

length-delete :
    (disk : ImprovementDisk) (name : String) {disk' : ImprovementDisk}
    → delete_observation disk name ≡ ok disk'
    → length disk'.observations ≤ length disk.observations
unfolding delete_observation
length-delete disk name h = ground (arith, length-remove_file name disk.observations)

length-prune_observations :
    (host : ImprovementHost) (days now : ℕ) (os : List Observation) (disk : ImprovementDisk)
    {out : ImprovementDisk × ℕ}
    → prune_observations host days now os disk ≡ ok out
    → length out.0.observations ≤ length disk.observations
unfolding prune_observations
length-prune_observations host days now [] disk h = ground arith
length-prune_observations host days now (o ∷ os) disk {out} h =
    elim (Bool-cases (is_expired host days now o.observed_at)) [
      | inr kept ↦ length-prune_observations host days now os disk {out = out} (ground arith)
      | inl expired ↦ elim (Result-cases (delete_observation disk o.observation_id)) [
        | inr (e, failed) ↦ absurd (ground arith)
        | inl (left, a) ↦ elim (Result-cases (prune_observations host days now os left)) [
          | inr (e, failed) ↦ absurd (ground arith)
          | inl (rest, b) ↦ ground (
            arith,
            length-delete disk o.observation_id a,
            length-prune_observations host days now os left b,
          )
        ]
      ]
    ]

Step-length :
    (host : ImprovementHost) (policy : ImprovementPolicy) (now : ℕ) {disk disk' : ImprovementDisk}
    → ImprovementStep host policy now disk disk'
    → length disk.observations ≤ policy.observations
    → length disk'.observations ≤ policy.observations
unfolding observe decide prune
Step-length host policy now {disk} (observes i first h) l =
    let (redacted, a, b, c, d) = observe_stages host policy disk i first now h in
    store-length host policy disk _ d l
Step-length host policy now (scans ps) l = l
Step-length host policy now (decides i h) l = ground arith
Step-length host policy now {disk} (deletes name h) l = ground (arith, length-delete disk name h)
Step-length host policy now {disk} (prunes {out} h) l =
    let (swept, a, b) =
      >>=-eq-ok
        (prune_observations host policy.observation_days now (values disk.observations) disk) _ h in
    ground (
      arith,
      length-prune_observations host policy.observation_days now (values disk.observations) disk a,
    )

-- Whatever steps are made one after the other, the store never has more observations than the limit of
-- its policy.
pub observations_limited :
    (host : ImprovementHost) (policy : ImprovementPolicy) {disk : ImprovementDisk}
    → ImprovementReach host policy disk
    → length disk.observations ≤ policy.observations
observations_limited host policy (begun e f) = ground (arith, ap length e)
observations_limited host policy (stepped now reach step) =
    Step-length host policy now step (observations_limited host policy reach)
