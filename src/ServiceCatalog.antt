-- ===== src/ServiceCatalog.antt =====
-- contracts/servicecatalog/servicecatalog.go: entries of the service catalogue, and the search for
-- private material in what is published.
pub mod Material
pub mod Entry
mod Tests
