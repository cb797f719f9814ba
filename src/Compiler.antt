-- ===== src/Compiler.antt =====
-- kernel/compiler: the compiler and its façade.
pub mod ApiContract
pub mod Catalog
pub mod DomainIr
pub mod Ir
pub mod Plan
pub mod Policy
pub mod Resolve
pub mod Tests
