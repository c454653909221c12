-- ===== src/FlowEngine.antt =====
-- lib/flow-engine: which flow an incoming message starts, how a flow runs, and the simulator.
pub mod Triggers
pub mod Types
pub mod Interpolate
pub mod Conditions
pub mod Split
pub mod Messages
pub mod Reply
pub mod Simulator
pub mod Engine
mod Tests
