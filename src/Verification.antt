-- ===== src/Verification.antt =====
-- scripts/runtime/verification: the evaluator's lanes and the verdict that they give a node.
pub mod Schemas
pub mod Context
pub mod Signals
pub mod Matrix
pub mod Combiner
pub mod Receipt
pub mod Admission
pub mod Retry
pub mod Coverage
pub mod Orchestrator
pub mod Deterministic
