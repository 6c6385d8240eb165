-- ===== src/Transactions.antt =====
-- apps/backend/transactions: the transactions on accounts, created one by one or generated.
pub mod Models
pub mod Inventory
pub mod Producer
pub mod Generator
pub mod Service
pub mod DbSink
