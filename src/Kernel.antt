-- ===== src/Kernel.antt =====
-- packages/kernel/src: the deterministic runtime that owns state, gates and evidence.
pub mod Gates
pub mod Lease
pub mod Canonical
pub mod Journal
pub mod RunConfig
pub mod Run
pub mod ValidatorOwnership
pub mod Workflow
pub mod Tasks
pub mod Evidence
pub mod Registry
pub mod Lock
pub mod Repeat
pub mod Objects
pub mod Files
pub mod Improvement
