-- ===== src/Mp4.antt =====
-- MP4: a job queue, the messages between a client and a server, and the two programs.
pub mod Queue
pub mod Socket
pub mod Wire
pub mod Jobs
pub mod Frames
pub mod Throttle
pub mod Hosts
mod Tests
