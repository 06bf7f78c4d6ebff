-- ===== src/Kernel/Workflow/Invalidation/Closure.antt =====
-- The plan holds exactly what the changed node invalidates, directly or through other nodes.
use apex_vnext.Common.{
  ℕ, zero, suc, ◌≡◌, refl, true, false, List, [], ◌∷◌, ◌++◌, some, ok, arith, ◌⊎◌, inl, inr,
  includes, Bool-cases, Option-cases, >>=-eq-ok, ◌>>=◌, subst, includes-append, ◌==◌, map, distinct,
}
use apex_vnext.Kernel.Canonical.{Text, text_Eq, text_eq_iff}
use apex_vnext.Kernel.Workflow.{Node, Manifest, node_of}
use apex_vnext.Kernel.Workflow.Invalidation.{
  InvalidationEntry, collect, plan_fuel, entry, invalidation_plan,
}

-- A change of the first node invalidates the second one.
pub data Invalidates (m : Manifest) (from : Text) : Text → Type 0 where
  direct :
      {to : Text} (n : Node)
      → node_of m from ≡ some n
      → includes to n.invalidates ≡ true
      → Invalidates m from to
  through :
      {mid to : Text} (n : Node)
      → Invalidates m from mid
      → node_of m mid ≡ some n
      → includes to n.invalidates ≡ true
      → Invalidates m from to

abbrev IsOneOf : List Text → List Text → Text → Type 0
IsOneOf ids seen x = (includes x ids ≡ true) ⊎ (includes x seen ≡ true)

-- What a call of the loop returns: new ids, each once; all that is queued, and all that a new id
-- invalidates, is among the new ids or was seen.
record Collected (m : Manifest) (pending seen ids : List Text) : Type 0 where
  fresh : (x : Text) → includes x ids ≡ true → includes x seen ≡ false
  once : distinct ids ≡ true
  queued : (x : Text) → includes x pending ≡ true → IsOneOf ids seen x
  closed :
      (x y : Text) (n : Node)
      → includes x ids ≡ true
      → node_of m x ≡ some n
      → includes y n.invalidates ≡ true
      → IsOneOf ids seen y

collect-nil : (m : Manifest) (seen : List Text) → Collected m [] seen []
collect-nil m seen = record {
  fresh = λ x h. cc;
  once = refl;
  queued = λ x h. cc;
  closed = λ x y n h p q. cc;
}

Collected-drop :
    (m : Manifest) (id : Text) (pending seen ids : List Text)
    → includes id seen ≡ true
    → Collected m pending seen ids
    → Collected m (id ∷ pending) seen ids
Collected-drop m id pending seen ids old c = record {
  fresh = c.fresh;
  once = c.once;
  queued = λ x h. ground (arith, text_eq_iff id x, c.queued x);
  closed = c.closed;
}

Collected-add :
    (m : Manifest) (id : Text) (n : Node) (pending seen ids : List Text)
    → includes id seen ≡ false
    → node_of m id ≡ some n
    → Collected m (pending ++ n.invalidates) (id ∷ seen) ids
    → Collected m (id ∷ pending) seen (id ∷ ids)
Collected-add m id n pending seen ids new known c = record {
  fresh = λ x h. ground (arith, text_eq_iff id x, c.fresh x);
  once = ground (arith, text_eq_iff id id, c.fresh id, c.once);
  queued =
      λ x h. ground (arith, text_eq_iff id x, c.queued x, includes-append x pending n.invalidates);
  closed = λ x y k h p q. ground (
    arith,
    text_eq_iff id x,
    text_eq_iff id y,
    c.closed x y k,
    c.queued y,
    includes-append y pending n.invalidates,
  );
}

nothing : (m : Manifest) (seen ids : List Text) → ids ≡ [] → Collected m [] seen ids
nothing m seen ids h = rw h (collect-nil m seen)

collect-Collected :
    (m : Manifest) (fuel : ℕ) (pending seen ids : List Text)
    → collect m fuel pending seen ≡ ok ids
    → Collected m pending seen ids
unfolding collect
collect-Collected m zero [] seen ids h = nothing m seen ids (ground arith)
collect-Collected m (suc fuel) [] seen ids h = nothing m seen ids (ground arith)
collect-Collected m zero (id ∷ pending) seen ids h = absurd (ground arith)
collect-Collected m (suc fuel) (id ∷ pending) seen ids h = elim (Bool-cases (includes id seen)) [
  | inl old ↦
      Collected-drop m id pending seen ids old
        (collect-Collected m fuel pending seen ids (ground arith))
  | inr new ↦ elim (Option-cases (node_of m id)) [
    | inl unknown ↦ absurd (ground arith)
    | inr (n, known) ↦
        let rest = collect m fuel (pending ++ n.invalidates) (id ∷ seen) in
        let bound : (rest >>= λ later. ok (id ∷ later)) ≡ ok ids = ground arith in
        let (later, collected, same) = >>=-eq-ok rest _ bound in
        subst (λ l. Collected m (id ∷ pending) seen l) (cc same)
          (Collected-add m id n pending seen later new known
            (collect-Collected m fuel (pending ++ n.invalidates) (id ∷ seen) later collected))
  ]
]

-- Nothing else is collected: what holds of the queue, and is handed on along `invalidates`, holds of
-- every id that is returned.
collect-only :
    (m : Manifest) (P : Text → Type 0)
    → ((x y : Text) (n : Node) → P x → node_of m x ≡ some n → includes y n.invalidates ≡ true → P y)
    → (fuel : ℕ) (pending seen ids : List Text) → ((x : Text) → includes x pending ≡ true → P x)
    → collect m fuel pending seen ≡ ok ids
    → (x : Text) → includes x ids ≡ true
    → P x
unfolding collect
collect-only m P hand zero [] seen ids q h x i = absurd (ground arith)
collect-only m P hand (suc fuel) [] seen ids q h x i = absurd (ground arith)
collect-only m P hand zero (id ∷ pending) seen ids q h x i = absurd (ground arith)
collect-only m P hand (suc fuel) (id ∷ pending) seen ids q h x i =
    elim (Bool-cases (includes id seen)) [
      | inl old ↦
          collect-only m P hand fuel pending seen ids (λ y j. q y (ground arith)) (ground arith) x i
      | inr new ↦ elim (Option-cases (node_of m id)) [
        | inl unknown ↦ absurd (ground arith)
        | inr (n, known) ↦
            let rest = collect m fuel (pending ++ n.invalidates) (id ∷ seen) in
            let bound : (rest >>= λ later. ok (id ∷ later)) ≡ ok ids = ground arith in
            let (later, collected, same) = >>=-eq-ok rest _ bound in
            let here : P id = q id (ground (arith, text_eq_iff id id)) in
            let both : (y : Text) → includes y (pending ++ n.invalidates) ≡ true → P y = λ y j.
              elim (Bool-cases (includes y pending)) [
                | inl queued ↦ q y (ground arith)
                | inr fresh ↦
                    hand id y n here known (ground (arith, includes-append y pending n.invalidates))
              ] in
            elim (Bool-cases (id == x)) [
              | inl e ↦ subst P ((text_eq_iff id x).0 e) here
              | inr ne ↦
                  collect-only m P hand fuel (pending ++ n.invalidates) (id ∷ seen) later both
                    collected x (ground arith)
            ]
      ]
    ]

abbrev pub ids_of : List InvalidationEntry → List Text
ids_of = map (λ (e : InvalidationEntry). e.node_id)

ids_of-map :
    (changed reason : Text) (ids : List Text) → ids_of (map (entry changed reason) ids) ≡ ids
ids_of-map changed reason [] = refl
ids_of-map changed reason (id ∷ ids) = cc (ids_of-map changed reason ids)

plan-eq-ok :
    (m : Manifest) (changed reason : Text) (plan : List InvalidationEntry)
    → invalidation_plan m changed reason ≡ ok plan
    → (start : Node) × (ids : List Text) × (node_of m changed ≡ some start)
      × (collect m (plan_fuel m start) start.invalidates [] ≡ ok ids)
      × (plan ≡ map (entry changed reason) ids)
unfolding invalidation_plan
plan-eq-ok m changed reason plan h = elim (Option-cases (node_of m changed)) [
  | inl unknown ↦ absurd (ground arith)
  | inr (start, known) ↦
      let run = collect m (plan_fuel m start) start.invalidates [] in
      let bound : (run >>= λ ids. ok (map (entry changed reason) ids)) ≡ ok plan = ground arith in
      let (ids, collected, same) = >>=-eq-ok run _ bound in (start, ids, known, collected, cc same)
]

module _ (m : Manifest) (changed : Text) (start : Node) (ids : List Text)
    (known : node_of m changed ≡ some start) (c : Collected m start.invalidates [] ids) where
  complete : (x : Text) → Invalidates m changed x → includes x ids ≡ true
  complete x (direct n p i) =
      let same : n ≡ start = cc (p, known) in
      let i' : includes x start.invalidates ≡ true =
        subst (λ (k : Node). includes x k.invalidates ≡ true) same i in
      ground (arith, c.queued x i')
  complete x (through {mid} n r p i) = ground (arith, c.closed mid x n (complete mid r) p i)

-- When the plan for a changed node is returned, it names exactly the nodes that the change
-- invalidates, directly or through other nodes, each of them once, and the reason of each entry is
-- the changed node and the reason that was given.
pub invalidation_plan-exact :
    (m : Manifest) (changed reason : Text) (plan : List InvalidationEntry)
    → invalidation_plan m changed reason ≡ ok plan
    → ((x : Text) → includes x (ids_of plan) ≡ true → Invalidates m changed x)
      × ((x : Text) → Invalidates m changed x → includes x (ids_of plan) ≡ true)
      × (distinct (ids_of plan) ≡ true)
      × (plan ≡ map (entry changed reason) (ids_of plan))
invalidation_plan-exact m changed reason plan h =
    let (start, ids, known, collected, same) = plan-eq-ok m changed reason plan h in
    let c = collect-Collected m (plan_fuel m start) start.invalidates [] ids collected in
    let named : ids_of plan ≡ ids = rw same (ids_of-map changed reason ids) in
    rw named (
      collect-only m (Invalidates m changed) (λ x y n r p i. through n r p i) (plan_fuel m start)
          start.invalidates [] ids (λ x i. direct start known i) collected,
      complete m changed start ids known c,
      c.once,
      same,
    )
