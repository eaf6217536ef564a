-- ===== src/Desktop.antt =====
-- The desktop application: apps/desktop/src-tauri/src.
pub mod AgentManager
pub mod Startup
