-- ===== src/Product.antt =====
-- Package internal/product: the product table's statements and the service.
pub mod Repository
pub mod Service
pub mod Listing
pub mod Catalog
pub mod Memory
