-- ===== src/TaskQueue.antt =====
-- app/task_queue.py: the persistent queue of tasks and its workers.
pub mod Entries
pub mod Queue
pub mod Workers
pub mod Rows
pub mod Selection
pub mod Submission
pub mod Resumption
mod Tests
