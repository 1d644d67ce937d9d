-- ===== src/Store.antt =====
-- internal/adapters/postgres: the store's transactions over the tables of migrations/.
pub mod Tables
pub mod Monad
pub mod Rows
pub mod Lasting
pub mod Apply
pub mod Process
pub mod Create
pub mod Work
pub mod Claim
pub mod Cursor
pub mod Page
pub mod Bank
pub mod Backlog
pub mod Reversals
pub mod Runs
