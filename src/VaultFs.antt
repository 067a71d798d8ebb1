-- ===== src/VaultFs.antt =====
-- internal/vaultfs: the mount's file names, its cache (cache.go) and its tree (tree.go).
pub mod Names
pub mod Cache
pub mod Tree
pub mod Listing
pub mod Store
mod Tests
