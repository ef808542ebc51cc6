-- ===== src/Reactor/EventLoopThread.antt =====
-- src/reactor/EventLoopThread.h and EventLoopThread.cc, over src/thread/Thread.cc: `StartLoop` in the
-- thread that calls it, and the new thread that makes a loop and tells its address. The two run
-- interleaved; a critical section of a latch is one step, and so is each statement besides.
pub mod Handshake
pub mod Steps
pub mod Returned
pub mod Nearer
pub mod Live
mod Tests
use wethands.Prelude.{
  ℕ, Bool, true, false, not, Option, none, some, List, [], ◌∷◌, ltb, if◌then◌else◌, Result, ok,
  assert, ◌>>=◌, ◌>>◌,
}
use wethands.Prelude.Int.{pos}
use wethands.Thread.Condition.{notify, resume}
use wethands.Thread.CountDownLatch.{CountDownLatch, new_count_down_latch, count_down, wait_latch}
use wethands.Thread.Thread.{Thread, new_thread, create, check_tid, set_tid, announce, set_name}

-- Where the new thread is: not there; at its first statement; before `CountDown` of the thread's
-- latch; before the user's function; with a loop made, before it tells its address; before
-- `CountDown` of the loop's latch; in `Loop`.
pub data Child : Type 0 where
  unborn born identified announced made told looping : Child

-- Where `StartLoop` is: not called; at the test of a latch; asleep on it; between the two latches;
-- and returned.
pub data Parent : Type 0 where
  outside tests_thread sleeps_thread checks tests_loop sleeps_loop returned : Parent

pub record EventLoopThread : Type 0 where
  pub latch : CountDownLatch
  pub thread : Thread
  -- `none` is the null pointer.
  pub loop : Option ℕ
  pub has_init_callback : Bool
  -- Did the new thread run the callback?
  pub initialised : Bool
  pub child : Child
  pub parent : Parent
  -- What `StartLoop` returned.
  pub result : Option ℕ

unfoldable pub new_event_loop_thread : Bool → List ℕ → ℕ → EventLoopThread
new_event_loop_thread has_init_callback name num = record {
  latch = new_count_down_latch (pos 1);
  thread = new_thread name num;
  loop = none;
  has_init_callback = has_init_callback;
  initialised = false;
  child = unborn;
  parent = outside;
  result = none;
}

-- Did `Wait` return?
unfoldable pub has_passed : CountDownLatch → CountDownLatch → Bool
has_passed before after = ltb before.passed after.passed

unfoldable pub wait_for_thread : CountDownLatch → EventLoopThread → EventLoopThread
wait_for_thread before t =
    let after = wait_latch before in
    record t {
      thread = record t.thread { latch = after };
      parent = if has_passed before after then checks else sleeps_thread;
    }

unfoldable pub wait_for_loop : CountDownLatch → EventLoopThread → EventLoopThread
wait_for_loop before t =
    let after = wait_latch before in
    if has_passed before after
    then record t { latch = after; parent = returned; result = t.loop }
    else record t { latch = after; parent = sleeps_loop }

-- The next step of `StartLoop`; a sleeper goes on only once it was woken.
unfoldable pub start_loop : Bool → EventLoopThread → Parent → Result EventLoopThread
start_loop create_succeeds t outside = do
  assert (not t.thread.started)
  thread ← create create_succeeds t.thread
  ok (record t { thread = thread; child = born; parent = tests_thread })
start_loop create_succeeds t tests_thread = ok (wait_for_thread t.thread.latch t)
start_loop create_succeeds t sleeps_thread = ok (
    if ltb 0 t.thread.latch.cond.woken
    then wait_for_thread (record t.thread.latch { cond = resume t.thread.latch.cond }) t
    else t)
start_loop create_succeeds t checks = do
  thread ← check_tid t.thread
  ok (record t { thread = thread; parent = tests_loop })
start_loop create_succeeds t tests_loop = ok (wait_for_loop t.latch t)
start_loop create_succeeds t sleeps_loop = ok (
    if ltb 0 t.latch.cond.woken
    then wait_for_loop (record t.latch { cond = resume t.latch.cond }) t
    else t)
start_loop create_succeeds t returned = ok t

-- The next step of the new thread, whose id is `tid` and whose loop has the address `address`:
-- `RunInThread` and then `LoopInThread`.
unfoldable pub run_in_thread : ℕ → ℕ → EventLoopThread → Child → EventLoopThread
run_in_thread tid address t unborn = t
run_in_thread tid address t born = record t { thread = set_tid tid t.thread; child = identified }
run_in_thread tid address t identified = record t { thread = announce t.thread; child = announced }
run_in_thread tid address t announced = record t {
  thread = set_name t.thread;
  initialised = t.has_init_callback;
  child = made;
}
run_in_thread tid address t made = record t { loop = some address; child = told }
run_in_thread tid address t told = record t { latch = count_down t.latch; child = looping }
run_in_thread tid address t looping = t

-- One of the two goes on, or a sleeper of a latch is woken with no signal.
pub data Event : Type 0 where
  parent_goes_on child_goes_on wakes_thread_latch wakes_loop_latch : Event

module _ (create_succeeds : Bool) (tid address : ℕ) where
  unfoldable pub step : EventLoopThread → Event → Result EventLoopThread
  step t parent_goes_on = start_loop create_succeeds t t.parent
  step t child_goes_on = ok (run_in_thread tid address t t.child)
  step t wakes_thread_latch = ok (record t {
    thread = record t.thread {
      latch = record t.thread.latch { cond = notify t.thread.latch.cond };
    };
  })
  step t wakes_loop_latch = ok (record t { latch = record t.latch { cond = notify t.latch.cond } })

  unfoldable pub run : EventLoopThread → List Event → Result EventLoopThread
  run t [] = ok t
  run t (e ∷ es) = step t e >>= λ t'. run t' es
