-- ===== src/Gateway.antt =====
-- The gateway of tools: the only way to run a tool's handler.
pub mod Repair
pub mod State
pub mod Defs
pub mod Govern
pub mod Invoke
pub mod Stages
pub mod Guards
pub mod Laws
pub mod Once
mod Tests
