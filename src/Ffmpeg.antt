-- ===== src/Ffmpeg.antt =====
-- pkg/ffmpeg: the plan of a transcode, its packets and its audio, and the detection of a crop.
pub mod Int64
pub mod Packets
pub mod CropState
pub mod CropDetect
pub mod Rebase
pub mod Audio
pub mod Builder
pub mod Plan
pub mod Output
pub mod Demux
pub mod Tests
