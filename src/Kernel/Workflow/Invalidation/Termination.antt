-- ===== src/Kernel/Workflow/Invalidation/Termination.antt =====
-- The loop ends, and a manifest that passed its validation has a plan for each of its nodes.
use apex_vnext.Common.{
  ℕ, zero, suc, ◌+◌, ◌≤◌, ◌≡◌, refl, ap, false, List, [], ◌∷◌, ◌++◌, none, some, ok, err, arith,
  inl, inr, All, includes, Bool-cases, find, map, length, length-append, All-append, ◌==◌,
  if◌then◌else◌,
}
use apex_vnext.Kernel.Canonical.{Text, text_Eq, text_eq_iff}
use apex_vnext.Kernel.Workflow.{Node, Manifest, node_of}
use apex_vnext.Kernel.Workflow.Invalidation.{
  InvalidationEntry, collect, plan_fuel, entry, invalidation_plan, targets, unknown_node,
}

-- What the nodes that were not seen yet can still queue.
abbrev unseen : List Node → List Text → ℕ
unseen [] seen = 0
unseen (n ∷ ns) seen = (if includes n.id seen then 0 else length n.invalidates) + unseen ns seen

unseen-nil : (ns : List Node) → unseen ns [] ≡ targets ns
unseen-nil [] = refl
unseen-nil (n ∷ ns) = ap (λ k. length n.invalidates + k) (unseen-nil ns)

unseen-cons-le :
    (id : Text) (ns : List Node) (seen : List Text) → unseen ns (id ∷ seen) ≤ unseen ns seen
unseen-cons-le id [] seen = omega arith
unseen-cons-le id (n ∷ ns) seen = ground (arith, unseen-cons-le id ns seen)

unseen-found :
    (id : Text) (n : Node) (ns : List Node) (seen : List Text)
    → find (λ (k : Node). k.id == id) ns ≡ some n
    → includes id seen ≡ false
    → unseen ns (id ∷ seen) + length n.invalidates ≤ unseen ns seen
unseen-found id n [] seen h new = cc
unseen-found id n (k ∷ ns) seen h new = elim (Bool-cases (k.id == id)) [
  | inl e ↦
      let same : k ≡ n = ground arith in
      let eq : k.id ≡ id = (text_eq_iff k.id id).0 e in
      let new' : includes k.id seen ≡ false = rw eq new in
      ground (
        arith,
        new',
        text_eq_iff id k.id,
        eq,
        unseen-cons-le id ns seen,
        ap (λ (x : Node). length x.invalidates) same,
      )
  | inr e ↦ ground (
    arith,
    text_eq_iff id k.id,
    text_eq_iff k.id id,
    unseen-found id n ns seen (ground arith) new,
  )
]

abbrev pub IsKnown : Manifest → Text → Type 0
IsKnown m id = (n : Node) × (node_of m id ≡ some n)

-- `validateWorkflowManifest` checks this of every manifest that it returns.
abbrev pub KnownTargets : Manifest → Type 0
KnownTargets m = (x : Text) (n : Node) → node_of m x ≡ some n → All (IsKnown m) n.invalidates

collect-returns :
    (m : Manifest)
    → KnownTargets m
    → (fuel : ℕ) (pending seen : List Text) → All (IsKnown m) pending
    → length pending + unseen m.nodes seen ≤ fuel
    → (ids : List Text) × (collect m fuel pending seen ≡ ok ids)
unfolding collect node_of
collect-returns m known zero [] seen k h = ([], refl)
collect-returns m known (suc fuel) [] seen k h = ([], refl)
collect-returns m known zero (id ∷ pending) seen k h = absurd (omega arith)
collect-returns m known (suc fuel) (id ∷ pending) seen ((n, found), ks) h =
    elim (Bool-cases (includes id seen)) [
      | inl old ↦
          let (ids, r) = collect-returns m known fuel pending seen ks (omega arith) in
          (ids, ground (arith, r, old))
      | inr new ↦
          let (ids, r) =
            collect-returns m known fuel (pending ++ n.invalidates) (id ∷ seen)
              (All-append (IsKnown m) pending n.invalidates ks (known id n found))
              (omega (
                arith,
                length-append pending n.invalidates,
                unseen-found id n m.nodes seen found new,
              )) in
          (id ∷ ids, ground (arith, r, new, found))
    ]

-- In a manifest all of whose `invalidates` name nodes, the plan for a change of any node is
-- returned: the loop ends within its fuel, one round for each entry that is ever queued, and meets
-- no unknown target. For a name that is no node the call throws.
pub invalidation_plan_total :
    (m : Manifest) (changed reason : Text)
    → KnownTargets m
    → (IsKnown m changed
        → (plan : List InvalidationEntry) × (invalidation_plan m changed reason ≡ ok plan))
      × (node_of m changed ≡ none → invalidation_plan m changed reason ≡ err (unknown_node changed))
unfolding invalidation_plan
invalidation_plan_total m changed reason known = (
  λ (start, found).
      let (ids, r) =
        collect-returns m known (plan_fuel m start) start.invalidates [] (known changed start found)
          (omega (arith, unseen-nil m.nodes)) in
      (map (entry changed reason) ids, ground (arith, found, r)),
  λ missing. ground (arith, missing),
)
