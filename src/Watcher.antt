-- ===== src/Watcher.antt =====
-- cmd/watcher: the scan of the watch directories and the dispatch of workflows.
pub mod Walk
pub mod Scan
pub mod Sentinels
pub mod Ids
pub mod Tests
