-- ===== src/FlowEngine/Engine.antt =====
-- lib/flow-engine/engine.ts: how a flow runs.
pub mod Store
pub mod Outside
pub mod Rows
pub mod Nodes
pub mod Replies
pub mod Ai
pub mod Run
pub mod Start
pub mod Keeps
pub mod Handlers
pub mod Contexts
pub mod Runs
pub mod Scope
pub mod Lifecycle
pub mod Triples
pub mod Walk
pub mod Loops
pub mod Settle
mod Tests
