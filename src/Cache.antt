-- ===== src/Cache.antt =====
-- internal/cache: the TTL cache behind the read models.
pub mod Ttl
