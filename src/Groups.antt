-- ===== src/Groups.antt =====
-- frontend/src/components/groups.
pub mod Requests
pub mod Page
pub mod Configure
pub mod Policies
pub mod View
