-- ===== src/Platform.antt =====
-- What the agent and the desktop share about the operating system: crates/platform/src.
pub mod Startup
