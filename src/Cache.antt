-- ===== src/Cache.antt =====
-- The caches of cache/memcache and cache/memcachettl.
pub mod Mem
pub mod Ttl
mod Tests
