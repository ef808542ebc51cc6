-- ===== src/Reactor/EventLoopThread/Steps.antt =====
-- A step of the new thread, and a test of a latch in `StartLoop`.
use mathlib.Core.Path.{subst}
use wethands.Prelude.{ℕ, ◌≡◌, refl, ap, sym, ◌∙◌, true, false, not, Bool-cases, inl, inr}
use wethands.Thread.CountDownLatch.{CountDownLatch, wait_latch}
use wethands.Thread.Thread.{set_tid, announce, set_name}
use wethands.Reactor.EventLoopThread.{
  Child, unborn, born, identified, announced, made, told, looping, Parent, EventLoopThread,
  wait_for_thread, wait_for_loop, run_in_thread,
}
use wethands.Reactor.EventLoopThread.Handshake.{
  IsLatched, count_down-IsLatched, wait-IsLatched, has_tid, has_announced, has_made, has_told,
  is_looping, is_unborn, is_outside, sleeps_on_thread, sleeps_on_loop, is_behind_thread,
  is_returned, IsSoundAt, IsSound, has_told-looping,
}

module _ (tid address : ℕ) (t : EventLoopThread) where
  pub run_in_thread-IsSound :
      (c : Child)
      → t.child ≡ c
      → IsSoundAt tid address c t.parent t
      → IsSound tid address (run_in_thread tid address t c)
  unfolding run_in_thread has_tid has_announced has_made has_told is_looping is_unborn set_tid
      announce set_name
  run_in_thread-IsSound unborn e v = subst (λ c. IsSoundAt tid address c t.parent t) (sym e) v
  run_in_thread-IsSound looping e v = subst (λ c. IsSoundAt tid address c t.parent t) (sym e) v
  run_in_thread-IsSound born e v = record {
    thread_latch = v.thread_latch;
    loop_latch = v.loop_latch;
    tids = λ h. refl;
    initialises = λ h. cc;
    tells = λ h. cc;
    starts = v.starts;
    births = v.births;
    announces = v.announces;
    loops = v.loops;
  }
  run_in_thread-IsSound identified e v = record {
    thread_latch = count_down-IsLatched (sleeps_on_thread t.parent) t.thread.latch v.thread_latch;
    loop_latch = v.loop_latch;
    tids = v.tids;
    initialises = λ h. cc;
    tells = λ h. cc;
    starts = v.starts;
    births = v.births;
    announces = λ h. refl;
    loops = v.loops;
  }
  run_in_thread-IsSound announced e v = record {
    thread_latch = v.thread_latch;
    loop_latch = v.loop_latch;
    tids = v.tids;
    initialises = λ h. refl;
    tells = λ h. cc;
    starts = v.starts;
    births = v.births;
    announces = v.announces;
    loops = v.loops;
  }
  run_in_thread-IsSound made e v = record {
    thread_latch = v.thread_latch;
    loop_latch = v.loop_latch;
    tids = v.tids;
    initialises = v.initialises;
    tells = λ h. refl;
    starts = v.starts;
    births = v.births;
    announces = v.announces;
    loops = v.loops;
  }
  run_in_thread-IsSound told e v = record {
    thread_latch = v.thread_latch;
    loop_latch = count_down-IsLatched (sleeps_on_loop t.parent) t.latch v.loop_latch;
    tids = v.tids;
    initialises = v.initialises;
    tells = v.tells;
    starts = v.starts;
    births = v.births;
    announces = v.announces;
    loops = λ h. cc ((v.loops h).0);
  }

  -- The test of the thread's latch, with the latch as it is before the test.
  pub wait_for_thread-IsSound :
      (p : Parent) (before : CountDownLatch)
      → IsSoundAt tid address t.child p t
      → IsLatched (has_announced t.child) false before
      → is_outside p ≡ false
      → sleeps_on_loop p ≡ false
      → IsSound tid address (wait_for_thread before t)
  unfolding wait_for_thread is_outside sleeps_on_thread sleeps_on_loop is_behind_thread is_returned
  wait_for_thread-IsSound p before v latched inside_ awake =
      elim (Bool-cases (has_announced t.child)) [
        | inl counted ↦
            let (passes, after) = wait-IsLatched (has_announced t.child) before latched in
            rw (passes, counted)
              (record {
                thread_latch =
                    subst (λ b. IsLatched (has_announced t.child) b (wait_latch before))
                      (ap not counted) after;
                loop_latch =
                    subst (λ b. IsLatched (is_looping t.child) b t.latch) awake v.loop_latch;
                tids = v.tids;
                initialises = v.initialises;
                tells = v.tells;
                starts = v.starts ∙ ap not inside_;
                births = v.births ∙ inside_;
                announces = λ h. counted;
                loops = λ h. cc;
              })
        | inr uncounted ↦
            let (passes, after) = wait-IsLatched (has_announced t.child) before latched in
            rw (passes, uncounted)
              (record {
                thread_latch =
                    subst (λ b. IsLatched (has_announced t.child) b (wait_latch before))
                      (ap not uncounted) after;
                loop_latch =
                    subst (λ b. IsLatched (is_looping t.child) b t.latch) awake v.loop_latch;
                tids = v.tids;
                initialises = v.initialises;
                tells = v.tells;
                starts = v.starts ∙ ap not inside_;
                births = v.births ∙ inside_;
                announces = λ h. cc;
                loops = λ h. cc;
              })
      ]

  -- The test of the loop's latch; if it passes, the address that is returned was told before.
  pub wait_for_loop-IsSound :
      (p : Parent) (before : CountDownLatch)
      → IsSoundAt tid address t.child p t
      → IsLatched (is_looping t.child) false before
      → is_behind_thread p ≡ true
      → is_outside p ≡ false
      → sleeps_on_thread p ≡ false
      → IsSound tid address (wait_for_loop before t)
  unfolding wait_for_loop is_outside sleeps_on_thread sleeps_on_loop is_behind_thread is_returned
  wait_for_loop-IsSound p before v latched behind inside_ awake =
      elim (Bool-cases (is_looping t.child)) [
        | inl counted ↦
            let (passes, after) = wait-IsLatched (is_looping t.child) before latched in
            rw (passes, counted)
              (record {
                thread_latch =
                    subst (λ b. IsLatched (has_announced t.child) b t.thread.latch) awake
                      v.thread_latch;
                loop_latch =
                    subst (λ b. IsLatched (is_looping t.child) b (wait_latch before))
                      (ap not counted) after;
                tids = v.tids;
                initialises = v.initialises;
                tells = v.tells;
                starts = v.starts ∙ ap not inside_;
                births = v.births ∙ inside_;
                announces = λ h. v.announces behind;
                loops = λ h. (counted, v.tells (has_told-looping t.child counted));
              })
        | inr uncounted ↦
            let (passes, after) = wait-IsLatched (is_looping t.child) before latched in
            rw (passes, uncounted)
              (record {
                thread_latch =
                    subst (λ b. IsLatched (has_announced t.child) b t.thread.latch) awake
                      v.thread_latch;
                loop_latch =
                    subst (λ b. IsLatched (is_looping t.child) b (wait_latch before))
                      (ap not uncounted) after;
                tids = v.tids;
                initialises = v.initialises;
                tells = v.tells;
                starts = v.starts ∙ ap not inside_;
                births = v.births ∙ inside_;
                announces = λ h. v.announces behind;
                loops = λ h. cc;
              })
      ]
