-- ===== src/DataProducts.antt =====
-- data_products/: the lineage graphs of the data products and their live status.
pub mod Models
pub mod Builder
pub mod Descriptor
pub mod Providers
pub mod CloudClient
pub mod Service
