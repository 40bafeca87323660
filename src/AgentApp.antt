-- ===== src/AgentApp.antt =====
-- apps/agent/src: the agent's state file.
pub mod State
mod Examples
