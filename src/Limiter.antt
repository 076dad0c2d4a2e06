-- ===== src/Limiter.antt =====
-- pkg/transcodelimiter/limiter.go: the slot supplier that gates transcode activities.
pub mod Defs
pub mod Admission
pub mod Bookkeeping
pub mod Starts
pub mod History
pub mod Pollers
pub mod Tests
