-- ===== src/Host.antt =====
-- src/host-service.c: the files that clients have hosted, on one HTTP server for each interface.
pub mod File
pub mod Service
pub mod Http
pub mod View
pub mod Invariant
pub mod Removal
pub mod Triples
pub mod Serve
pub mod Tests
