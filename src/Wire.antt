-- ===== src/Wire.antt =====
-- wire/: the ingress engine, from an authenticated request to the relayed answer.
pub mod Dispatch
pub mod Engine
pub mod Ingress
pub mod Handler
pub mod Passthrough
pub mod Compose
