-- ===== src/Platform/Windows.antt =====
-- src/platform/windows.rs: the kernel objects behind a wait handle, and their names.
pub mod Handles
pub mod Timer
pub mod EventName
pub mod Process
pub mod AsyncWait
mod Tests
