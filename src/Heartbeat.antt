-- ===== src/Heartbeat.antt =====
-- scripts/runtime/heartbeat: the tick that plans, reserves and records work on a project graph.
pub mod Graph
pub mod Policy
pub mod Store
pub mod Recorder
pub mod Sessions
pub mod Completion
pub mod Scope
pub mod Jobs
pub mod Adoption
pub mod Recovery
pub mod Provisional
pub mod Chaining
pub mod Claims
pub mod Planning
pub mod Dispatching
pub mod Recording
pub mod Classifier
pub mod Handover
pub mod Gates
pub mod Continuity
pub mod Frontier
pub mod Bootstrap
pub mod Returns
pub mod Merges
