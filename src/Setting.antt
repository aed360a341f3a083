-- ===== src/Setting.antt =====
-- internal/setting: the system settings.
pub mod Store
pub mod Refines
mod Examples
