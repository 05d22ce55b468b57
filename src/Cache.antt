-- ===== src/Cache.antt =====
-- The caches and the pool of buffers (src/infra/cache, src/cache and src/infra/memory).
pub mod Oldest
pub mod Chain
pub mod Query
pub mod FileCache
pub mod Buffers
mod Tests
