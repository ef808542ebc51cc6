-- ===== src/Reactor.antt =====
-- src/reactor: the parts that one event loop is made of.
pub mod Channel
pub mod EventLoop
pub mod EventLoopThread
pub mod EventLoopThreadPool
pub mod Poller
pub mod Timer
pub mod TimerQueue
