-- ===== src/Worker.antt =====
-- cmd/worker: how the worker is configured.
pub mod Activities
pub mod Settings
pub mod Config
pub mod Tests
