-- ===== src/Core.antt =====
-- The request machinery shared by the services: errors, transactions, table access.
pub mod Errors
pub mod Action
pub mod Transactions
pub mod Repository
