-- ===== src/Deployment.antt =====
-- Deployments in the cloud: backend/src/kosmo/application/integrations and the tasks of
-- backend/src/kosmo/infrastructure/integrations/deployment_worker.py.
pub mod Records
pub mod Failure
pub mod Recovery
pub mod Monitor
pub mod Active
mod Tests
