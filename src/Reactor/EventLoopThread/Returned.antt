-- ===== src/Reactor/EventLoopThread/Returned.antt =====
-- What `StartLoop` returns, and that it returns.
use mathlib.Core.Path.{subst}
use wethands.Prelude.{
  List, [], ◌∷◌, Returns-bind, ℕ, ◌<◌, ◌≡◌, refl, ap, sym, ◌∙◌, Bool, true, false, ltb, ltb→lt,
  lt→ltb, Returns, if_lem, arith,
}
use wethands.Thread.Thread.{create, check_tid}
use wethands.Reactor.EventLoopThread.{
  Child, unborn, Parent, outside, tests_thread, sleeps_thread, checks, tests_loop, sleeps_loop,
  returned, EventLoopThread, start_loop, Event, parent_goes_on, child_goes_on, wakes_thread_latch,
  wakes_loop_latch, step, run, new_event_loop_thread,
}
use wethands.Reactor.EventLoopThread.Handshake.{
  IsLatched, notify-IsLatched, resume-IsLatched, has_tid, has_announced, has_made, has_told,
  is_looping, is_unborn, is_outside, sleeps_on_thread, sleeps_on_loop, is_behind_thread,
  is_returned, IsSoundAt, IsSound, has_tid-has_announced,
}
use wethands.Reactor.EventLoopThread.Steps.{
  run_in_thread-IsSound, wait_for_thread-IsSound, wait_for_loop-IsSound,
}
use wethands.Thread.Thread.{new_thread}
use wethands.Thread.CountDownLatch.{new_count_down_latch}

is_unborn-eq : (c : Child) → is_unborn c ≡ true → c ≡ unborn
unfolding is_unborn
is_unborn-eq c h = ground arith

module _ (tid address : ℕ) (real : 0 < tid) where
  start_loop-IsSound :
      (t : EventLoopThread) (p : Parent)
      → t.parent ≡ p
      → IsSoundAt tid address t.child p t
      → Returns (start_loop true t p) (IsSound tid address)
  unfolding start_loop create check_tid is_outside sleeps_on_thread sleeps_on_loop is_behind_thread
      is_returned is_unborn has_announced is_looping has_tid has_made has_told
  start_loop-IsSound t returned e v = subst (λ p. IsSoundAt tid address t.child p t) (sym e) v
  start_loop-IsSound t outside e v =
      let unborn_ : t.child ≡ unborn = is_unborn-eq t.child v.births in
      rw v.starts (record {
        thread_latch =
            subst (λ c. IsLatched (has_announced c) false t.thread.latch) unborn_ v.thread_latch;
        loop_latch = subst (λ c. IsLatched (is_looping c) false t.latch) unborn_ v.loop_latch;
        tids = λ h. cc;
        initialises = λ h. cc;
        tells = λ h. cc;
        starts = refl;
        births = refl;
        announces = λ h. cc;
        loops = λ h. cc;
      })
  start_loop-IsSound t tests_thread e v =
      wait_for_thread-IsSound tid address t tests_thread t.thread.latch v v.thread_latch refl refl
  start_loop-IsSound t sleeps_thread e v =
      if_lem (IsSound tid address) (ltb 0 t.thread.latch.cond.woken) _ t
        (λ woken.
          wait_for_thread-IsSound tid address t sleeps_thread _ v
            (resume-IsLatched (has_announced t.child) t.thread.latch v.thread_latch
              (ltb→lt 0 _ woken))
            refl refl)
        (λ unwoken. subst (λ p. IsSoundAt tid address t.child p t) (sym e) v)
  start_loop-IsSound t checks e v =
      let identified_ : t.thread.tid ≡ tid =
        v.tids (has_tid-has_announced t.child (v.announces refl)) in
      let positive : ltb 0 t.thread.tid ≡ true = ap (ltb 0) identified_ ∙ lt→ltb 0 tid real in
      rw positive (record {
        thread_latch = v.thread_latch;
        loop_latch = v.loop_latch;
        tids = v.tids;
        initialises = v.initialises;
        tells = v.tells;
        starts = v.starts;
        births = v.births;
        announces = v.announces;
        loops = λ h. cc;
      })
  start_loop-IsSound t tests_loop e v =
      wait_for_loop-IsSound tid address t tests_loop t.latch v v.loop_latch refl refl refl
  start_loop-IsSound t sleeps_loop e v =
      if_lem (IsSound tid address) (ltb 0 t.latch.cond.woken) _ t
        (λ woken.
          wait_for_loop-IsSound tid address t sleeps_loop _ v
            (resume-IsLatched (is_looping t.child) t.latch v.loop_latch (ltb→lt 0 _ woken)) refl
            refl refl)
        (λ unwoken. subst (λ p. IsSoundAt tid address t.child p t) (sym e) v)

  pub step-IsSound :
      (t : EventLoopThread) (e : Event)
      → IsSound tid address t
      → Returns (step true tid address t e) (IsSound tid address)
  unfolding step
  step-IsSound t parent_goes_on v = start_loop-IsSound t t.parent refl v
  step-IsSound t child_goes_on v = run_in_thread-IsSound tid address t t.child refl v
  step-IsSound t wakes_thread_latch v = record {
    thread_latch =
        notify-IsLatched (has_announced t.child) (sleeps_on_thread t.parent) t.thread.latch
          v.thread_latch;
    loop_latch = v.loop_latch;
    tids = v.tids;
    initialises = v.initialises;
    tells = v.tells;
    starts = v.starts;
    births = v.births;
    announces = v.announces;
    loops = v.loops;
  }
  step-IsSound t wakes_loop_latch v = record {
    thread_latch = v.thread_latch;
    loop_latch =
        notify-IsLatched (is_looping t.child) (sleeps_on_loop t.parent) t.latch v.loop_latch;
    tids = v.tids;
    initialises = v.initialises;
    tells = v.tells;
    starts = v.starts;
    births = v.births;
    announces = v.announces;
    loops = v.loops;
  }

  pub run-IsSound :
      (t : EventLoopThread) (es : List Event)
      → IsSound tid address t
      → Returns (run true tid address t es) (IsSound tid address)
  unfolding run
  run-IsSound t [] v = v
  run-IsSound t (e ∷ es) v =
      Returns-bind (IsSound tid address) (IsSound tid address) (step true tid address t e) _
        (step-IsSound t e v) (λ t' v'. run-IsSound t' es v')

  pub new-IsSound :
      (has_init_callback : Bool) (name : List ℕ) (num : ℕ)
      → IsSound tid address (new_event_loop_thread has_init_callback name num)
  unfolding new_event_loop_thread new_thread new_count_down_latch has_tid has_announced has_made
      has_told is_looping is_unborn is_outside sleeps_on_thread sleeps_on_loop is_behind_thread
      is_returned
  new-IsSound has_init_callback name num = record {
    thread_latch = record { counts = refl; sleepers = refl; awake = λ h. refl };
    loop_latch = record { counts = refl; sleepers = refl; awake = λ h. refl };
    tids = λ h. cc;
    initialises = λ h. cc;
    tells = λ h. cc;
    starts = refl;
    births = refl;
    announces = λ h. cc;
    loops = λ h. cc;
  }

  -- Whatever the interleaving of `StartLoop` with the thread that it creates, also with wakeups that
  -- nobody asked for: no assertion fails, so that the thread's id is there when it is tested; the
  -- address of the loop is told before its latch opens; and when `StartLoop` has returned, the new
  -- thread is in its loop and the result is the address of that loop, never the null pointer.
  pub run_thread-IsSound :
      (has_init_callback : Bool) (name : List ℕ) (num : ℕ) (es : List Event)
      → Returns
          (run true tid address (new_event_loop_thread has_init_callback name num) es)
          (IsSound tid address)
  run_thread-IsSound has_init_callback name num es =
      run-IsSound (new_event_loop_thread has_init_callback name num) es
        (new-IsSound has_init_callback name num)
