-- ===== src/Reactor/EventLoopThread/Nearer.antt =====
-- Each step of `StartLoop` and of the new thread brings it nearer to its end.
use wethands.Prelude.{
  ℕ, ◌<◌, ◌≡◌, refl, ap, ◌∙◌, true, false, ltb, ltb→lt, lt→ltb, Returns, if_lem, Bool-cases, inl,
  inr, arith,
}
use wethands.Thread.Condition.{resume}
use wethands.Thread.CountDownLatch.{CountDownLatch, wait_latch}
use wethands.Thread.Thread.{create, check_tid}
use wethands.Reactor.EventLoopThread.{
  Child, unborn, born, identified, announced, made, told, looping, Parent, outside, tests_thread,
  sleeps_thread, checks, tests_loop, sleeps_loop, returned, EventLoopThread, has_passed,
  wait_for_thread, wait_for_loop, start_loop, run_in_thread,
}
use wethands.Reactor.EventLoopThread.Handshake.{
  IsLatched, resume-IsLatched, wait-IsLatched, has_tid, has_announced, is_looping, is_unborn,
  is_outside, sleeps_on_thread, sleeps_on_loop, is_behind_thread, IsSoundAt, has_tid-has_announced,
}
use wethands.Prelude.{◌-◌, ◌≤◌}

-- How many steps are left to the new thread, and to `StartLoop` when that is in its loop.
unfoldable pub child_left : Child → ℕ
child_left unborn = 6
child_left born = 5
child_left identified = 4
child_left announced = 3
child_left made = 2
child_left told = 1
child_left looping = 0

unfoldable pub parent_left : Parent → ℕ
parent_left outside = 4
parent_left tests_thread = 3
parent_left sleeps_thread = 3
parent_left checks = 2
parent_left tests_loop = 1
parent_left sleeps_loop = 1
parent_left returned = 0

pub child_left-zero : (c : Child) → child_left c ≡ 0 → c ≡ looping
unfolding child_left
child_left-zero c h = ground arith

pub parent_left-zero : (p : Parent) → parent_left p ≡ 0 → p ≡ returned
unfolding parent_left
parent_left-zero p h = ground arith

-- A thread that is there comes nearer to its loop with each step.
pub run_in_thread-nearer :
    (tid address : ℕ) (t : EventLoopThread) (c : Child)
    → t.child ≡ c
    → is_unborn c ≡ false
    → (is_unborn (run_in_thread tid address t c).child ≡ false)
      × (child_left (run_in_thread tid address t c).child ≤ child_left c - 1)
unfolding run_in_thread child_left is_unborn
run_in_thread-nearer tid address t unborn e there = cc
run_in_thread-nearer tid address t born e there = (refl, omega arith)
run_in_thread-nearer tid address t identified e there = (refl, omega arith)
run_in_thread-nearer tid address t announced e there = (refl, omega arith)
run_in_thread-nearer tid address t made e there = (refl, omega arith)
run_in_thread-nearer tid address t told e there = (refl, omega arith)
run_in_thread-nearer tid address t looping e there = rw e (refl, omega arith)

-- A sleeper on a latch that was counted down was woken.
woken_lem : (l : CountDownLatch) → IsLatched true true l → ltb 0 l.cond.woken ≡ true
woken_lem l v = lt→ltb 0 l.cond.woken (omega (arith, v.sleepers, v.awake refl))

abbrev pub WentIn : EventLoopThread → Type 0
WentIn t = is_outside t.parent ≡ false

wait_for_loop-WentIn :
    (before : CountDownLatch) (t : EventLoopThread) → WentIn (wait_for_loop before t)
unfolding wait_for_loop is_outside
wait_for_loop-WentIn before t = elim (Bool-cases (has_passed before (wait_latch before))) [
  | inl passes ↦ rw passes refl
  | inr sleeps ↦ rw sleeps refl
]

abbrev IsInside : Parent → Type 0
IsInside p = is_outside p ≡ false

pub child_left-le : (c : Child) → is_unborn c ≡ false → child_left c ≤ 5
unfolding child_left is_unborn
child_left-le c h = ground arith

pub parent_left-le : (p : Parent) → is_outside p ≡ false → parent_left p ≤ 3
unfolding parent_left is_outside
parent_left-le p h = ground arith

module _ (tid address : ℕ) (real : 0 < tid) where
  -- With the new thread in its loop, `StartLoop` comes nearer to its end with each step.
  pub start_loop-nearer :
      (t : EventLoopThread) (p : Parent)
      → t.parent ≡ p
      → t.child ≡ looping
      → IsSoundAt tid address looping p t
      → Returns
          (start_loop true t p)
          (λ t'. (t'.child ≡ looping) × (parent_left t'.parent ≤ parent_left p - 1))
  unfolding start_loop parent_left wait_for_thread wait_for_loop is_unborn is_outside has_announced
      is_looping sleeps_on_thread sleeps_on_loop check_tid has_tid
  start_loop-nearer t outside e l v = cc (v.births)
  start_loop-nearer t returned e l v = rw e (l, omega arith)
  start_loop-nearer t tests_thread e l v =
      rw (wait-IsLatched true t.thread.latch v.thread_latch).0 (l, omega arith)
  start_loop-nearer t sleeps_thread e l v =
      rw
        (
          woken_lem t.thread.latch v.thread_latch,
          (wait-IsLatched true (record t.thread.latch { cond = resume t.thread.latch.cond })
              (resume-IsLatched true t.thread.latch v.thread_latch
                (ltb→lt 0 _ (woken_lem t.thread.latch v.thread_latch)))).0,
        )
        (l, omega arith)
  start_loop-nearer t checks e l v =
      let positive : ltb 0 t.thread.tid ≡ true = ap (ltb 0) (v.tids refl) ∙ lt→ltb 0 tid real in
      rw positive (l, omega arith)
  start_loop-nearer t tests_loop e l v =
      rw (wait-IsLatched true t.latch v.loop_latch).0 (l, omega arith)
  start_loop-nearer t sleeps_loop e l v =
      rw
        (
          woken_lem t.latch v.loop_latch,
          (wait-IsLatched true (record t.latch { cond = resume t.latch.cond })
              (resume-IsLatched true t.latch v.loop_latch
                (ltb→lt 0 _ (woken_lem t.latch v.loop_latch)))).0,
        )
        (l, omega arith)

  -- After its first step `StartLoop` has created the thread.
  pub start_loop-inside :
      (t : EventLoopThread) (p : Parent)
      → t.parent ≡ p
      → IsSoundAt tid address t.child p t
      → Returns (start_loop true t p) WentIn
  unfolding start_loop create wait_for_thread wait_for_loop check_tid is_outside is_behind_thread
      has_tid
  start_loop-inside t outside e v = rw v.starts refl
  start_loop-inside t returned e v = rw e refl
  start_loop-inside t tests_thread e v =
      if_lem IsInside _ checks sleeps_thread (λ h. refl) (λ h. refl)
  start_loop-inside t sleeps_thread e v =
      if_lem WentIn (ltb 0 t.thread.latch.cond.woken) _ t
        (λ woken. if_lem IsInside _ checks sleeps_thread (λ h. refl) (λ h. refl))
        (λ unwoken. rw e refl)
  start_loop-inside t checks e v =
      let identified_ : t.thread.tid ≡ tid =
        v.tids (has_tid-has_announced t.child (v.announces refl)) in
      let positive : ltb 0 t.thread.tid ≡ true = ap (ltb 0) identified_ ∙ lt→ltb 0 tid real in
      rw positive refl
  start_loop-inside t tests_loop e v = wait_for_loop-WentIn t.latch t
  start_loop-inside t sleeps_loop e v =
      if_lem WentIn (ltb 0 t.latch.cond.woken) _ t
        (λ woken. wait_for_loop-WentIn (record t.latch { cond = resume t.latch.cond }) t)
        (λ unwoken. rw e refl)
