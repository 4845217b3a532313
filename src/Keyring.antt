-- ===== src/Keyring.antt =====
-- ingress/keyring/: the gateway keys of the clients, and what their scopes allow.
pub mod Scopes
pub mod Argonhash
pub mod Secret
pub mod Keys
pub mod SqlStore
pub mod MemoryStore
