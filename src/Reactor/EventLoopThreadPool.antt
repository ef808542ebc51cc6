-- ===== src/Reactor/EventLoopThreadPool.antt =====
-- src/reactor/EventLoopThreadPool.h and EventLoopThreadPool.cc: the loops that share the work of a
-- server. What `StartLoop` of src/reactor/EventLoopThread.cc returns for each thread is a parameter;
-- `in_loop` says whether the caller runs in the thread of the base loop.
pub mod RoundRobin
mod Tests
use wethands.Prelude.{
  ℕ, zero, suc, ◌+◌, Bool, true, false, not, ◌&&◌, Option, none, some, List, [], ◌∷◌, ◌++◌, ◌==◌,
  length, get_elem?, if◌then◌else◌, Result, ok, fault, bad_access, assert, ◌>>=◌, ◌>>◌,
}

pub record EventLoopThreadPool {ℓ} (A : Type ℓ) : Type ℓ where
  pub base_loop : A
  pub started : Bool
  pub next : ℕ
  pub loops : List A
  -- Was the callback run in the thread of the base loop?
  pub initialised_here : Bool

module _ {ℓ} {A : Type ℓ} where
  unfoldable pub new_event_loop_thread_pool : A → EventLoopThreadPool A
  new_event_loop_thread_pool base_loop = record {
    base_loop = base_loop;
    started = false;
    next = 0;
    loops = [];
    initialised_here = false;
  }

  -- The loop over the threads: `start_loop i` is what the thread number `i` returns.
  unfoldable pub start_loops : (ℕ → A) → ℕ → List A
  start_loops start_loop zero = []
  start_loops start_loop (suc n) = start_loops start_loop n ++ start_loop n ∷ []

  -- `has_callback` is whether a callback is given.
  unfoldable pub start :
      Bool → (ℕ → A) → ℕ → Bool → EventLoopThreadPool A → Result (EventLoopThreadPool A)
  start in_loop start_loop num_threads has_callback p = do
    assert (not p.started)
    assert in_loop
    ok (record p {
      loops = p.loops ++ start_loops start_loop num_threads;
      started = true;
      initialised_here = (num_threads == 0) && has_callback;
    })

  -- `loops_[i]`, and the pool after `next_++`.
  unfoldable pub take_loop : EventLoopThreadPool A → ℕ → Result (A × EventLoopThreadPool A)
  take_loop p i = elim (get_elem? p.loops i) [
    | none ↦ fault bad_access
    | some loop ↦ ok (loop, record p { next = i + 1 })
  ]

  unfoldable pub next_loop : Bool → EventLoopThreadPool A → Result (A × EventLoopThreadPool A)
  next_loop in_loop p = do
    assert p.started
    assert in_loop
    if length p.loops == 0
        then ok (p.base_loop, p)
        else take_loop p (if p.next == length p.loops then 0 else p.next)

  unfoldable pub all_loops : Bool → EventLoopThreadPool A → Result (List A)
  all_loops in_loop p = do
    assert p.started
    assert in_loop
    ok (if length p.loops == 0 then p.base_loop ∷ [] else p.loops)

  -- The loops that a number of calls of `NextLoop` return, one call after another.
  unfoldable pub next_loops : ℕ → EventLoopThreadPool A → Result (List A)
  next_loops zero p = ok []
  next_loops (suc n) p = do
    (loop, p') ← next_loop true p
    loops ← next_loops n p'
    ok (loop ∷ loops)
