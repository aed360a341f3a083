-- ===== src/Account.antt =====
-- internal/account: what happens to the rows of accounts.
pub mod Pauses
pub mod Proxies
pub mod Credits
pub mod Expiry
pub mod Service
pub mod Rows
mod Examples
mod ServiceExamples
