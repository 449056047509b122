-- ===== src/FileStore.antt =====
-- app/file_store: the store of files in memory.
pub mod Memory
pub mod Contents
mod Tests
