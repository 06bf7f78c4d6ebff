-- ===== src/Kernel/ValidatorOwnership.antt =====
-- packages/kernel/src/workflow-validator-ownership.ts: who runs each validator that a workflow node may
-- name, and at which boundary.
mod Tests
use apex_vnext.Common.{
  String, Bool, List, [], ◌∷◌, ◌++◌, Option, none, some, ◌==◌, if◌then◌else◌, map, is_some, find,
}
use mathlib.Core.Option
use apex_vnext.Kernel.Canonical.{Text, units, text_Eq}

pub data Execution : Type 0 where
  schema inline capability review_run external_command : Execution

pub data Boundary : Type 0 where
  task_output review external_evidence validation gate preview deploy : Boundary
  inventory diagnosis quality terminal : Boundary

pub data Owner : Type 0 where
  kernel capabilities cli : Owner

pub record Ownership : Type 0 where
  pub owner : Owner
  pub entrypoint : Text
  pub execution : Execution
  pub boundary : Boundary

pub record OwnershipGroup : Type 0 where
  pub ids : List Text
  pub ownership : Ownership

abbrev group : List String → Owner → String → Execution → Boundary → OwnershipGroup
group ids owner entrypoint execution boundary = record {
  ids = map units ids;
  ownership = record {
    owner = owner;
    entrypoint = units entrypoint;
    execution = execution;
    boundary = boundary;
  };
}

pub ownership_groups : List OwnershipGroup
ownership_groups =
    group
      ("schema:architecture-v1" ∷ "schema:governance-constraints-v1" ∷ "schema:iac-binding-v1"
        ∷ "schema:implementation-intent-v1" ∷ "schema:policy-property-map-v1"
        ∷ "schema:requirements-v1" ∷ "schema:workload-decision-manifest-v1" ∷ [])
      cli "ApexService.validateTaskValidators" schema task_output
    ∷ group
        ("business:bicep-binding-coverage" ∷ "business:binding-track-match"
          ∷ "business:cost-arithmetic" ∷ "business:dependency-acyclic"
          ∷ "business:governance-completeness" ∷ "business:governance-freshness"
          ∷ "business:plan-source-coverage" ∷ "business:policy-effect-coverage"
          ∷ "business:requirements-completeness" ∷ "business:requirements-traceability"
          ∷ "business:well-architected-assessment-complete"
          ∷ "business:workload-decision-manifest-coverage" ∷ "business:terraform-binding-coverage"
          ∷ [])
        cli "ApexService.validateTaskValidators" inline task_output
    ∷ group ("business:availability-current" ∷ []) cli "ApexService.validateTaskValidators"
        capability external_evidence
    ∷ group
        ("business:logical-resource-parity" ∷ "business:policy-property-map"
          ∷ "business:security-baseline" ∷ [])
        capabilities "validateGeneratedTree" capability validation
    ∷ group
        ("review:architecture-comprehensive" ∷ "review:plan-comprehensive"
          ∷ "review:requirements-comprehensive" ∷ "review:well-architected-criteria-complete" ∷ [])
        cli "ApexService.validateTaskValidators" review_run review
    ∷ group
        ("gate:architecture-cost-governance-ready" ∷ "gate:implementation-plan-ready"
          ∷ "gate:requirements-ready" ∷ [])
        cli "ApexService.validateGateValidators" inline gate
    ∷ group
        ("gate:approval-binding-complete" ∷ "gate:no-hard-blockers" ∷ "gate:preview-current" ∷ [])
        cli "ApexService.validateGateValidators" inline gate
    ∷ group ("bicep:build" ∷ "bicep:format" ∷ "bicep:lint" ∷ []) capabilities
        "validateGeneratedTree" external_command validation
    ∷ group ("terraform:format" ∷ "terraform:init-backend-false" ∷ "terraform:validate" ∷ [])
        capabilities "validateGeneratedTree" external_command validation
    ∷ group ("terraform:saved-plan-binding" ∷ []) capabilities
        "NativeTerraformProvider.previewApply" capability preview
    ∷ group
        ("preview:coverage" ∷ "preview:freshness" ∷ "preview:hash-bindings"
          ∷ "preview:policy-precheck" ∷ [])
        cli "ApexService.validatePreviewValidators" inline preview
    ∷ group ("deploy:exact-approved-operation" ∷ "deploy:stale-writer-rejection" ∷ []) cli
        "ApexService.validateDeployValidators" inline deploy
    ∷ group ("deploy:bicep-azd-execution" ∷ []) capabilities "AzdBicepProvider.apply" capability
        deploy
    ∷ group ("deploy:exact-saved-plan" ∷ "deploy:state-lineage-and-serial" ∷ []) capabilities
        "NativeTerraformProvider.apply" capability deploy
    ∷ group
        ("inventory:eventual-consistency-reconciled" ∷ "inventory:secret-free"
          ∷ "inventory:source-coverage" ∷ [])
        cli "ApexService.validateInventoryValidators" inline inventory
    ∷ group ("diagnosis:read-only" ∷ "diagnosis:secret-free" ∷ []) cli
        "ApexService.validateTaskValidators" inline diagnosis
    ∷ group ("quality:no-subjective-deterministic-claims" ∷ "quality:scorecard-decidable" ∷ []) cli
        "ApexService.validateTaskValidators" inline quality
    ∷ group ("terminal:run-evidence-complete" ∷ []) cli "ApexService.ensureTerminalCompletion"
        inline terminal
    ∷ []

-- `ownershipEntries`.
entries_of : List Text → Ownership → List (Text × Ownership)
entries_of [] o = []
entries_of (id ∷ ids) o = (id, o) ∷ entries_of ids o

entries_from : List OwnershipGroup → List (Text × Ownership)
unfolding entries_of
entries_from [] = []
entries_from (g ∷ gs) = entries_of g.ids g.ownership ++ entries_from gs

pub ownership_entries : List (Text × Ownership)
unfolding ownership_groups entries_from
ownership_entries = entries_from ownership_groups

-- The ids differ, so the first entry of an id is its only one.
unfoldable pub workflow_validator_ownership : Text → Option Ownership
unfolding ownership_entries
workflow_validator_ownership id =
    Option.map (λ (e : Text × Ownership). e.1)
      (find (λ (e : Text × Ownership). e.0 == id) ownership_entries)
