-- ===== src/Home.antt =====
-- frontend/src/views, router and main.ts.
pub mod Events
pub mod Colour
pub mod Roles
pub mod Tabs
pub mod View
