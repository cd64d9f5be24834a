-- ===== src/Ledger.antt =====
-- The books: every user's balance against the user's transactions (src/domains/users,
-- src/domains/payments and src/domains/promotions together).
pub mod Books
pub mod Purchase
pub mod Webhook
pub mod Delivery
pub mod Interleaving
pub mod Charges
mod Tests
