-- ===== src/Packages.antt =====
-- frontend/src/components/packages.
pub mod Requests
pub mod Page
pub mod View
