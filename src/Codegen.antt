-- ===== src/Codegen.antt =====
-- backend/src/kosmo/domain/codegen: the deterministic rules of code generation.
pub mod Path
pub mod Plan
pub mod Integration
mod Tests
