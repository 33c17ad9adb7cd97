-- ===== src/Training.antt =====
-- training/atlas_training: the aliases of a registered model, the trusted corpus, the synthetic
-- pairs with their provenance manifest, and the split of the training data.
pub mod Aliases
pub mod Config
pub mod Corpus
pub mod Manifest
pub mod Pair
pub mod Split
pub mod Synth
pub mod Tracker
mod DataTests
mod Tests
