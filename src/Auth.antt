-- ===== src/Auth.antt =====
-- Sessions: the use cases of backend/src/kosmo/application/auth over the Redis stores of
-- backend/src/kosmo/infrastructure/persistence/redis.
pub mod Keys
pub mod Types
pub mod TokenStore
pub mod Sessions
pub mod Login
mod Tests
