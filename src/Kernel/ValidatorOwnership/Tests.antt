-- ===== src/Kernel/ValidatorOwnership/Tests.antt =====
-- Look-ups in the ownership table.
use apex_vnext.Common.{◌≡◌, refl, true, map, none, distinct}
use mathlib.Core.Option
use apex_vnext.Kernel.Canonical.{Text, units, text_Eq}
use apex_vnext.Kernel.ValidatorOwnership.{
  Ownership, ownership_entries, workflow_validator_ownership, preview,
}

ids_differ : distinct (map (λ (e : Text × Ownership). e.0) ownership_entries) ≡ true
unfolding ownership_entries
ids_differ = refl

saved_plan :
    Option.map
      (λ (o : Ownership). o.boundary)
      (workflow_validator_ownership (units "terraform:saved-plan-binding"))
    ≡ Option.some preview
unfolding workflow_validator_ownership
saved_plan = refl

unknown : workflow_validator_ownership (units "terraform:apply") ≡ none
unfolding workflow_validator_ownership
unknown = refl
