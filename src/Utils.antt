-- ===== src/Utils.antt =====
-- src/utils: the bounded and the unbounded blocking queue.
pub mod CircularQueue
pub mod BoundedBlockingQueue
pub mod BlockingQueue
pub mod FileUtil
