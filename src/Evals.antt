-- ===== src/Evals.antt =====
-- evals/atlas_evals: the scorers, the cassettes and the gates that block a merge or a promotion.
pub mod Adversarial
pub mod Citation
pub mod Format
pub mod Gate
pub mod CostGate
pub mod Promotion
pub mod Cassettes
mod FormatTests
mod Tests
