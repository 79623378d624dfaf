-- ===== src/Cache.antt =====
-- internal/cache: the caches of objects and of query results.
pub mod Object
pub mod Query
mod Examples
