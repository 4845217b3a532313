-- ===== src/Catalog.antt =====
-- catalog/: providers.yaml, its routes, and the choice of upstreams for a request.
pub mod Document
pub mod Wires
pub mod Routing
pub mod Resolve
pub mod Doctor
pub mod Listing
