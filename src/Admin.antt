-- ===== src/Admin.antt =====
-- internal/admin: the parts of the administration that compute something of their own.
pub mod Version
mod Examples
