-- ===== src/Kernel/RunConfig.antt =====
-- packages/kernel/src/run-config.ts. The run configuration is the JSON value of run.json. Whether a
-- value has the shape of `RunConfigV1Schema` is decided by TypeBox, a parameter here.
mod Tests
use apex_vnext.Common.{
  ℕ, zero, suc, ◌+◌, ◌-◌, ◌*◌, String, Bool, true, false, ◌&&◌, List, [], ◌∷◌, Option, none, some,
  Result, ok, err, not, ◌==◌, nat_Eq, if◌then◌else◌, ◌≡◌, refl, arith, Bool-cases, ◌⊎◌, inl, inr,
  ◌↔◌,
}
use apex_vnext.Kernel.Canonical.{
  Text, Json, num, str, arr, Items, nil, cons, units, text_Eq, text_eq_iff, member,
}
use apex_vnext.Kernel.Gates.{DeploymentPurpose, lab, production, is_readiness_gate}

pub data RunConfigError : Type 0 where
  schema_mismatch : RunConfigError
  ready_not_allowed : List ℕ → RunConfigError

-- `value === "text"`.
abbrev pub is_text : Text → Option Json → Bool
is_text t (some (str s)) = s == t
is_text t _ = false

-- The number that a text of decimal digits stands for.
abbrev digits_value : ℕ → Text → ℕ
digits_value acc [] = acc
digits_value acc (d ∷ ds) = digits_value (acc * 10 + (d - 48)) ds

abbrev pub number_of : Option Json → ℕ
number_of (some (num t)) = digits_value 0 t
number_of _ = 0

-- `run.purpose`, which the schema limits to the two purposes.
pub purpose_of : Json → DeploymentPurpose
purpose_of run = if is_text (units "lab") (member (units "purpose") run) then lab else production

abbrev pub gates_of : Option Json → Items
gates_of (some (arr gates)) = gates
gates_of _ = nil

-- `gate.state === "ready" && !isReadinessGate(run.purpose, gate.gate)`.
pub has_issue : DeploymentPurpose → Json → Bool
has_issue purpose gate =
    is_text (units "ready") (member (units "state") gate)
    && not (is_readiness_gate purpose (number_of (member (units "gate") gate)))

-- The indices of the gates that have an issue.
pub issues_from : DeploymentPurpose → ℕ → Items → List ℕ
issues_from purpose index nil = []
issues_from purpose index (cons gate gates) =
    let rest = issues_from purpose (index + 1) gates in
    if has_issue purpose gate then index ∷ rest else rest

pub readiness_gate_issues : Json → List ℕ
readiness_gate_issues run = issues_from (purpose_of run) 0 (gates_of (member (units "gates") run))

abbrev ok_if_none : List ℕ → Json → Result RunConfigError Json
ok_if_none [] run = ok run
ok_if_none (i ∷ is) run = err (ready_not_allowed (i ∷ is))

unfoldable pub parse_run_config : (Json → Bool) → Json → Result RunConfigError Json
parse_run_config check value =
    if check value then ok_if_none (readiness_gate_issues value) value else err schema_mismatch

abbrev pub AllItems : (Json → Type 0) → Items → Type 0
AllItems P nil = Unit
AllItems P (cons x xs) = P x × AllItems P xs

issues_from-eq-nil_iff :
    (purpose : DeploymentPurpose) (n : ℕ) (gates : Items)
    → (issues_from purpose n gates ≡ []) ↔ AllItems (λ g. has_issue purpose g ≡ false) gates
unfolding issues_from
issues_from-eq-nil_iff purpose n nil = (λ h. tt, λ h. refl)
issues_from-eq-nil_iff purpose n (cons g gs) = (
  λ h. ground (arith, issues_from-eq-nil_iff purpose (n + 1) gs),
  λ h. ground (arith, issues_from-eq-nil_iff purpose (n + 1) gs),
)

-- A gate that is not ready, or is gate 2 or 3 of a lab run.
abbrev pub ReadyOnlyInLab : DeploymentPurpose → Json → Type 0
ReadyOnlyInLab purpose gate =
    is_text (units "ready") (member (units "state") gate) ≡ true
    → (purpose ≡ lab)
      × ((number_of (member (units "gate") gate) ≡ 2)
          ⊎ (number_of (member (units "gate") gate) ≡ 3))

has_issue_iff :
    (purpose : DeploymentPurpose) (gate : Json)
    → (has_issue purpose gate ≡ false) ↔ ReadyOnlyInLab purpose gate
unfolding has_issue is_readiness_gate
has_issue_iff purpose gate = (λ h r. ground arith, λ h. ground arith)

AllItems-map :
    (P Q : Json → Type 0) (f : (x : Json) → P x → Q x) (xs : Items) → AllItems P xs → AllItems Q xs
AllItems-map P Q f nil h = tt
AllItems-map P Q f (cons x xs) (h, hs) = (f x h, AllItems-map P Q f xs hs)

no_issues_iff :
    (run : Json)
    → (readiness_gate_issues run ≡ [])
      ↔ AllItems (ReadyOnlyInLab (purpose_of run)) (gates_of (member (units "gates") run))
unfolding readiness_gate_issues
no_issues_iff run =
    let p = purpose_of run in
    let gates = gates_of (member (units "gates") run) in
    (
      λ h.
          AllItems-map (λ g. has_issue p g ≡ false) (ReadyOnlyInLab p) (λ g. (has_issue_iff p g).0)
            gates ((issues_from-eq-nil_iff p 0 gates).0 h),
      λ h. (issues_from-eq-nil_iff p 0 gates).1 (
          AllItems-map (ReadyOnlyInLab p) (λ g. has_issue p g ≡ false) (λ g. (has_issue_iff p g).1)
            gates h),
    )

parse_run_config-cases :
    (check : Json → Bool) (value run : Json)
    → (parse_run_config check value ≡ ok run)
      ↔ ((check value ≡ true) × (value ≡ run) × (readiness_gate_issues value ≡ []))
unfolding parse_run_config
parse_run_config-cases check value run = (λ h. ground arith, λ h. ground arith)

-- A run is accepted, unchanged, exactly when it has the shape of the schema and every gate that is
-- recorded as ready is gate 2 or 3 of a lab run.
pub parse_run_config-ok_iff :
    (check : Json → Bool) (value run : Json)
    → (parse_run_config check value ≡ ok run) ↔ (
        (check value ≡ true)
        × (value ≡ run)
        × AllItems (ReadyOnlyInLab (purpose_of value)) (gates_of (member (units "gates") value)))
parse_run_config-ok_iff check value run = (
  λ h.
      let (c, same, none_left) = (parse_run_config-cases check value run).0 h in
      (c, same, (no_issues_iff value).0 none_left),
  λ (c, same, gates).
      (parse_run_config-cases check value run).1 (c, same, (no_issues_iff value).1 gates),
)
