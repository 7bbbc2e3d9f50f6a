-- ===== src/Tests.antt =====
-- The theorems at concrete inputs.
pub mod Lanes
pub mod Receipts
pub mod Dispatch
pub mod Sessions
pub mod Completions
pub mod Samples
pub mod Planning
pub mod Frontier
pub mod Adoptions
pub mod Returns
pub mod Merges
