-- ===== src/Mp3.antt =====
-- MP3: the kernel module that samples page faults into a buffer shared with user space.
pub mod Profiler
pub mod Mmap
pub mod Monitor
pub mod Reports
pub mod Work
mod Tests
