-- ===== src/Credential.antt =====
-- credential/: the upstream credentials, and how they reach an upstream request.
pub mod Material
pub mod Inject
pub mod Seal
pub mod Payload
pub mod Store
pub mod Policy
pub mod Sqlite
pub mod Oauth
