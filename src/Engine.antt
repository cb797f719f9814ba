-- ===== src/Engine.antt =====
-- engine/materializer: what writes generated files, and what verifies them.
pub mod Materialize
pub mod Tests
