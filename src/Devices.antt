-- ===== src/Devices.antt =====
-- frontend/src/components/devices.
pub mod Requests
pub mod Page
pub mod Route
pub mod Detail
pub mod View
pub mod Tagged
