-- ===== src/Mp2.antt =====
-- MP2: the kernel module with a rate-monotonic scheduler.
pub mod Task
pub mod Admission
pub mod Registration
pub mod Dispatcher
pub mod Yield
pub mod Proc
pub mod Userapp
pub mod System
pub mod Keeps
pub mod Safety
pub mod Races
mod Tests
