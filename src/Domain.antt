-- ===== src/Domain.antt =====
-- The financial model, internal/domain: one child module for each of its files.
pub mod Errors
pub mod Money
pub mod Id
pub mod Wallet
pub mod Ledger
pub mod Wager
pub mod Evaluate
pub mod Events
