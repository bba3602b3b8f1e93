-- ===== src/Catalog.antt =====
-- services/catalog-service: the services of a shop, and who may change them.
pub mod Domain
pub mod Service
pub mod Stored
