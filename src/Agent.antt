-- ===== src/Agent.antt =====
-- The agent orchestrator (agents/app).
pub mod Amounts
pub mod State
pub mod Nodes
pub mod Graph
pub mod Writes
pub mod Jwt
pub mod Engine
pub mod Mcp
pub mod EvalGate
pub mod Runner
mod EvalTests
mod McpTests
mod Tests
