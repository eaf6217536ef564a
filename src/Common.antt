-- ===== src/Common.antt =====
-- crates/common/src: what the other crates share.
pub mod Error
