-- ===== src/TaskQueue.antt =====
-- internal/taskqueue: background tasks with retries and a dead-letter queue.
pub mod Task
pub mod Order
pub mod Store
pub mod Queue
mod Examples
