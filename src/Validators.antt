-- ===== src/Validators.antt =====
-- The validators of generated artifacts: backend/src/kosmo/domain/sdd/validators.
pub mod ActivityDiagram
mod Tests
