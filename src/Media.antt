-- ===== src/Media.antt =====
-- workflows/media: the workflow that processes one media file, and its activities.
pub mod Types
pub mod Streams
pub mod Languages
pub mod Crop
pub mod Cleanup
pub mod Probe
pub mod Notify
pub mod OutputPath
pub mod Surroundings
pub mod Transcode
pub mod Workflow
pub mod Activities
