-- ===== src/Utils.antt =====
-- frontend/src/common/utils.ts: the interfaces of the resources, what stands outside the program,
-- and the state that the modules share. The children hold its functions.
pub mod Endpoints
pub mod Model
pub mod World
pub mod Access
pub mod Fetch
pub mod Resources
pub mod Notifications
pub mod Permissions
pub mod Command
pub mod Form
pub mod Submission
pub mod Polling
