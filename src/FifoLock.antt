-- ===== src/FifoLock.antt =====
-- app/conversation/fifo_lock.py: the two locks that hand themselves to waiters in order of arrival.
pub mod AsyncLock
pub mod ThreadLock
pub mod Barging
pub mod Wakeups
pub mod Invariant
pub mod Exclusion
mod Tests
