-- ===== src/Upstream.antt =====
-- upstream/: which failures another pool member may be tried after, the upstream URLs, and the
-- relaying of an upstream's response.
pub mod Retry
pub mod Relay
pub mod Url
