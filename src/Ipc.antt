-- ===== src/Ipc.antt =====
-- crates/ipc/src: the protocol between the agent and its clients.
pub mod Protocol
pub mod Client
pub mod Server
