-- ===== src/Lib.antt =====
-- wethands: a C++ network library in the reactor style. One thread per event loop waits on epoll and
-- runs the callbacks of channels; a TCP connection owns a channel, an input and an output buffer, and
-- is served by one loop, to which other threads hand tasks; queues and a logger serve the threads.
--
-- The parts, the files that model them and the code:
--   Prelude            numbers, lists and the outcome of code that can fail. `Result` is a value or a
--                      `Fault`: an assertion that fails, an access out of bounds, a null pointer, an
--                      exception that nobody catches, `abort`, or a memcpy between regions that
--                      overlap. `Decimal` prints and reads numbers; `Halting` has the runs that keep
--                      an invariant until a step at which the code goes wrong.
--   Net.Buffer         src/net/Buffer.h and Buffer.cc. The vector is a list of bytes and a pointer is
--                      an offset; `Retrieve` is `retrieve`, `CheckAndMakePlace` is
--                      `check_and_make_place`, and so on. readv(2) is a parameter.
--   Net.TcpConnection  src/net/TcpConnection.h and TcpConnection.cc. The connection is one record with
--                      its channel, its two buffers, the bytes that the kernel took, and the loop's
--                      queue of tasks. write(2) is a parameter of each step. `Schedule` has the events of any
--                      interleaving of threads with the loop of src/reactor/EventLoop.cc.
--   Net.Connector      src/net/Connector.h and Connector.cc. The state of an attempt with its channel
--                      and its retry timers, under any schedule of what can happen to it. Stopping
--                      aborts where epoll_ctl(2) is called on a socket that was closed.
--   Net.InetAddress, Net.Socket
--                      the files of src/net with these names: what the functions do with the answers
--                      of the system calls, which are parameters.
--   Net.Acceptor       src/net/Acceptor.h and Acceptor.cc: the socket that listens, with the descriptors
--                      that the kernel gives it.
--   Net.TcpServer      src/net/TcpServer.h and TcpServer.cc, with TcpConnection and the thread pool
--                      beneath: the table of connections and the tasks that its loops hand each other.
--                      A step is a call from the poller or a task that a loop takes from its queue.
--                      The poller reports the end of a connection as long as it is registered; a
--                      shutdown is called in the loop of its connection.
--                      The poller reports the end of a connection as long as it is registered; a
--                      shutdown is called in the loop of its connection.
--   Net.TcpClient      src/net/TcpClient.h and TcpClient.cc, with Connector and TcpConnection beneath,
--                      all in one loop.
--   Net.HttpRequest, Net.HttpContext, Net.HttpResponse, Net.HttpServer
--                      the files of src/net/http with these names. The parser reads the input
--                      buffer of a connection line by line; the server hands a whole request to the
--                      user's callback and sends what the printer makes of the response. What
--                      std::regex_match finds in a line is a parameter. A string is a list of bytes,
--                      and a std::map of strings is a list in the order of its keys.
--   Reactor.Channel    src/reactor/Channel.h and Channel.cc. The mask of events is a number of 32 bits.
--   Reactor.EventLoop  src/reactor/EventLoop.h and EventLoop.cc: the tasks that threads queue, the
--                      eventfd that wakes the loop, and its end. The eventfd is a parameter with the
--                      law that it is readable once it was written to. A step is one that the lock or
--                      a system call makes indivisible.
--   Reactor.EventLoopThread
--                      src/reactor/EventLoopThread.h and EventLoopThread.cc: `StartLoop` interleaved with
--                      the thread that it creates, statement by statement.
--   Reactor.EventLoopThreadPool
--                      src/reactor/EventLoopThreadPool.h and EventLoopThreadPool.cc: the loops that take
--                      turns. Net.TcpServer calls it for each connection.
--   Reactor.Poller     src/reactor/Poller.h and Poller.cc, with RegisterToPoller and RemoveFromPoller of
--                      src/reactor/Channel.cc. A pointer to a channel is a number. epoll(7) is a
--                      parameter, with the interest list that its calls leave as a law.
--   Reactor.Timer, Reactor.TimerQueue
--                      src/reactor/Timer.h, Timer.cc, TimerQueue.h and TimerQueue.cc, with the time
--                      differences of src/utils/Timestamp.h. The set of timers is a list in the
--                      order of the set. The clock is a function from how often it was read;
--                      timerfd_settime(2) and the timers' callbacks are parameters.
--   Logger.AsyncLogging
--                      src/logger/AsyncLogging.h and AsyncLogging.cc: the buffers that the loggers
--                      and the writer thread hand each other, any schedule of both.
--   Logger.LogFile     src/logger/LogFile.h and LogFile.cc: the files that a log is written to one
--                      after another. The clock is a parameter, as in Reactor.TimerQueue.
--   Thread.Condition   src/thread/Condition.h and Condition.cc: how many threads sleep, and how many
--                      were woken and wait for the lock.
--   Thread.Mutex       src/thread/Mutex.h, with `Wait` of src/thread/Condition.h: the lock and whom it
--                      names as its holder. A call of pthread and an assignment are a step each.
--   Thread.CountDownLatch, Thread.Thread, Thread.ThreadPool
--                      the files of src/thread with these names.
--   Utils.CircularQueue, Utils.BoundedBlockingQueue
--                      src/utils/BoundedBlockingQueue.h.
--   Utils.BlockingQueue
--                      src/utils/BlockingQueue.h.
--   Utils.FileUtil     src/utils/FileUtil.h and FileUtil.cc. How much the C library's stream takes at a
--                      call is a parameter.
-- In the queues, the latch and the pool a critical section is one step, and a schedule is any list of
-- calls, wakeups (also spurious ones) and resumptions.
-- Each definition has the name of its function in small letters. A sum of two `size_t` wraps around
-- at 2 ^ 64 (`add_size`, `sub_size`), and the assertions are those of a build that checks them.
--
-- The `int` counts of the latch, and the `int64_t` sums of a timed wait, are integers without bound.
-- The `int` counts of the latch, and the `int64_t` sums of a timed wait, are integers without bound.
-- A timestamp does not precede the epoch, and a sum of timestamps does not overflow.
--
-- The loop of the HTTP parser runs on fuel, one round more than there are readable bytes, which is
-- shown to be enough, since each round but the last takes bytes out. The digits
-- of a number are 20 at most, as many as a `size_t` can have. All else is recursion on a list, and a
-- schedule is a list of events.
--
-- The loop of an append to a file has a round for each byte and one more, which is shown to be enough.
--
-- The number of connections of a server stays below 2 ^ 31, the range of its counter, and the number
-- in a connection's name has 20 digits at most. The bound on what a log is given is the bytes of 8
-- of its buffers, since the writer drops buffers beyond 16.
--
-- Not modelled: the options of sockets, atomic integers, the formatting of log lines and of times,
-- which pass calls on to the system, the end of a loop's thread in its destructor, and the lifetime
-- of C++ objects. A user's callback is a note in the log of the connection; what a user does in it
-- is a later event of the schedule. The log is modelled while it runs, without its start and stop.
pub mod Logger
pub mod Net
pub mod Prelude
pub mod Reactor
pub mod Thread
pub mod Utils
