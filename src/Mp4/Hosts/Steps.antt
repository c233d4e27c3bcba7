-- ===== src/Mp4/Hosts/Steps.antt =====
-- Each step of a thread of the load balancer of MP4 keeps the invariant of its jobs.
pub mod Cases
pub mod Client
pub mod Server
pub mod Invariant
