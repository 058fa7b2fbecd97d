-- ===== src/Tests.antt =====
-- Runs of the code at concrete inputs.
mod Setup
mod Utils
mod Race
mod Devices
mod Packages
mod Uploads
mod Groups
mod Configure
mod Server
mod Policies
mod Home
mod Expiry
mod Components
mod Polling
