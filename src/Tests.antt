-- ===== src/Tests.antt =====
-- Runs of the model at concrete inputs.
pub mod Audit
pub mod Parser
pub mod Proxy
pub mod Handler
pub mod Startup
pub mod Boot
pub mod Schema
pub mod System
pub mod Bodies
