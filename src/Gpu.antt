-- ===== src/Gpu.antt =====
-- infra/gpu/atlas_gpu: the GPU's lifecycle, its provider, the provisioning and the command line.
pub mod Poll
pub mod Session
pub mod Watchdog
pub mod Roles
pub mod EnvFile
pub mod Script
pub mod Jarvis
pub mod Bootstrap
pub mod Cli
mod Tests
mod ProviderTests
