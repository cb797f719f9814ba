-- ===== src/Extensions.antt =====
-- kernel/extensions: the adapter protocol.
pub mod Ownership
pub mod Adapter
pub mod Tests
