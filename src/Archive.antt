-- ===== src/Archive.antt =====
-- internal/archive: the manifest of an archive and its cost.
pub mod Manifest
pub mod Cost
