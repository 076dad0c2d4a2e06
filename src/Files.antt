-- ===== src/Files.antt =====
-- What the program uses of Go's path/filepath and os packages, on Linux.
pub mod Paths
pub mod Tree
