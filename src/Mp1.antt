-- ===== src/Mp1.antt =====
-- MP1: the kernel module that reports the CPU times of registered processes.
pub mod Registry
pub mod Userapp
mod Tests
