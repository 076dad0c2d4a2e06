-- ===== src/Arr.antt =====
-- pkg/medialib: the clients of Radarr and Sonarr behind Notify.
pub mod Command
pub mod Queue
pub mod Artwork
pub mod Import
pub mod Radarr
pub mod Sonarr
pub mod Handover
pub mod Tests
