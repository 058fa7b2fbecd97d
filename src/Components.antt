-- ===== src/Components.antt =====
-- frontend/src/components: the parts that the pages share.
pub mod Dropdown
pub mod SimpleDropdown
pub mod DownloadButton
pub mod TitleBar
pub mod RemovePopup
pub mod Terminal
