-- ===== src/Pipeline.antt =====
-- The generation of artifacts: backend/src/kosmo/application/pipeline.
pub mod Generation
mod Tests
