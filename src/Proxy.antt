-- ===== src/Proxy.antt =====
-- The proxy, 7.Proxy_lab/proxylab-handout: the buffer of connections and its threads, and the lock and
-- the cache that they share.
pub mod Outcome
pub mod Threads
pub mod Sbuf
pub mod Pool
pub mod Locks
pub mod Cache
