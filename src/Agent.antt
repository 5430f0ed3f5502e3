-- ===== src/Agent.antt =====
-- crates/agent/src/main.rs: the agent, which plans a build, submits it and waits.
pub mod Install
pub mod Plan
pub mod Run
