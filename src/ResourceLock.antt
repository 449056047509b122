-- ===== src/ResourceLock.antt =====
-- app/parallel_executor/resource_lock.py and declared_resources.py: readers-writer locks by resource.
pub mod Declared
pub mod Conflicts
pub mod Pairwise
pub mod RwLock
pub mod Manager
mod Tests
