-- ===== src/Thread.antt =====
-- src/thread: conditions and what is built of them.
pub mod Condition
pub mod CountDownLatch
pub mod ThreadPool
pub mod Mutex
pub mod Thread
