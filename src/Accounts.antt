-- ===== src/Accounts.antt =====
-- apps/backend/accounts: the accounts of customers, kept in PostgreSQL or in a CSV file.
pub mod Models
pub mod Inventory
pub mod Producer
pub mod Service
pub mod DbSink
