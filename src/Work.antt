-- ===== src/Work.antt =====
-- src/common: queues of work that is done later.
pub mod ConcurrentExecutor
pub mod WaitingQueue
