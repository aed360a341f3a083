-- ===== src/Router.antt =====
-- internal/router: from the public model name of a request to a group and an account.
pub mod Resolved
pub mod Db
pub mod Picking
pub mod State
pub mod Resolve
pub mod Direct
mod Examples
