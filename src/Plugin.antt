-- ===== src/Plugin.antt =====
-- internal/plugin: the processes of the plugins, what they may call back, and what they print.
pub mod Stderr
pub mod Manager
pub mod Packages
pub mod Host
mod Examples
