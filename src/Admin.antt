-- ===== src/Admin.antt =====
-- The administration plane: its tokens and its HTTP server.
pub mod Auth
pub mod Server
pub mod Stream
