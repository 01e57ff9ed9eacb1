-- ===== src/Web.antt =====
-- The web front end, apps/web/src.
pub mod JobSocket
pub mod Formats
pub mod ConvertFlow
pub mod CompressFlow
pub mod Forms
pub mod Client
pub mod Hooks
pub mod Upload
pub mod Settings
