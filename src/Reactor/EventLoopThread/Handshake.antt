-- ===== src/Reactor/EventLoopThread/Handshake.antt =====
-- How the two threads wait for each other: what holds at every place of both.
use wethands.Prelude.{ℕ, ◌+◌, ◌<◌, ◌≡◌, refl, Bool, true, false, not, some, if◌then◌else◌, arith}
use wethands.Prelude.Int.{pos}
use wethands.Thread.Condition.{wait, notify, notify_all, resume}
use wethands.Thread.CountDownLatch.{CountDownLatch, count_down, wait_latch}
use wethands.Reactor.EventLoopThread.{
  Child, unborn, born, identified, made, told, looping, Parent, outside, sleeps_thread, checks,
  tests_loop, sleeps_loop, returned, EventLoopThread, has_passed,
}

-- A latch that one thread counts down once, and on which one other thread waits.
pub record IsLatched (counted sleeping : Bool) (l : CountDownLatch) : Type 0 where
  pub counts : l.count ≡ pos (if counted then 0 else 1)
  pub sleepers : l.cond.asleep + l.cond.woken ≡ (if sleeping then 1 else 0)
  pub awake : counted ≡ true → l.cond.asleep ≡ 0

pub count_down-IsLatched :
    (sleeping : Bool) (l : CountDownLatch)
    → IsLatched false sleeping l
    → IsLatched true sleeping (count_down l)
unfolding count_down notify_all
count_down-IsLatched sleeping l v =
    rw (count_down, v.counts)
      (record { counts = refl; sleepers = omega (arith, v.sleepers); awake = λ h. refl })

pub notify-IsLatched :
    (counted sleeping : Bool) (l : CountDownLatch)
    → IsLatched counted sleeping l
    → IsLatched counted sleeping (record l { cond = notify l.cond })
unfolding notify
notify-IsLatched counted sleeping l v = record {
  counts = v.counts;
  sleepers = ground (arith, v.sleepers);
  awake = λ h. ground (arith, v.awake h);
}

pub resume-IsLatched :
    (counted : Bool) (l : CountDownLatch)
    → IsLatched counted true l
    → 0 < l.cond.woken
    → IsLatched counted false (record l { cond = resume l.cond })
unfolding resume
resume-IsLatched counted l v some_woken = record {
  counts = v.counts;
  sleepers = omega (arith, v.sleepers);
  awake = v.awake;
}

-- A wait passes a latch that was counted down, and sleeps on one that was not.
pub wait-IsLatched :
    (counted : Bool) (l : CountDownLatch)
    → IsLatched counted false l
    → (has_passed l (wait_latch l) ≡ counted) × IsLatched counted (not counted) (wait_latch l)
unfolding has_passed wait_latch wait
wait-IsLatched true l v =
    rw (wait_latch, v.counts)
      (ground arith, record { counts = refl; sleepers = v.sleepers; awake = v.awake })
wait-IsLatched false l v =
    rw (wait_latch, v.counts)
      (
        ground arith,
        record { counts = refl; sleepers = omega (arith, v.sleepers); awake = λ h. cc },
      )

-- What the new thread has done at a place.
unfoldable pub has_tid : Child → Bool
has_tid unborn = false
has_tid born = false
has_tid _ = true

unfoldable pub has_announced : Child → Bool
has_announced unborn = false
has_announced born = false
has_announced identified = false
has_announced _ = true

unfoldable pub has_made : Child → Bool
has_made made = true
has_made told = true
has_made looping = true
has_made _ = false

unfoldable pub has_told : Child → Bool
has_told told = true
has_told looping = true
has_told _ = false

unfoldable pub is_looping : Child → Bool
is_looping looping = true
is_looping _ = false

unfoldable pub is_unborn : Child → Bool
is_unborn unborn = true
is_unborn _ = false

-- What `StartLoop` has done at a place.
unfoldable pub is_outside : Parent → Bool
is_outside outside = true
is_outside _ = false

unfoldable pub sleeps_on_thread : Parent → Bool
sleeps_on_thread sleeps_thread = true
sleeps_on_thread _ = false

unfoldable pub sleeps_on_loop : Parent → Bool
sleeps_on_loop sleeps_loop = true
sleeps_on_loop _ = false

unfoldable pub is_behind_thread : Parent → Bool
is_behind_thread checks = true
is_behind_thread tests_loop = true
is_behind_thread sleeps_loop = true
is_behind_thread returned = true
is_behind_thread _ = false

unfoldable pub is_returned : Parent → Bool
is_returned returned = true
is_returned _ = false

-- What holds of the thread when it and `StartLoop` are at these places.
pub record IsSoundAt (tid address : ℕ) (c : Child) (p : Parent) (t : EventLoopThread) : Type 0 where
  pub thread_latch : IsLatched (has_announced c) (sleeps_on_thread p) t.thread.latch
  pub loop_latch : IsLatched (is_looping c) (sleeps_on_loop p) t.latch
  pub tids : has_tid c ≡ true → t.thread.tid ≡ tid
  pub initialises : has_made c ≡ true → t.initialised ≡ t.has_init_callback
  pub tells : has_told c ≡ true → t.loop ≡ some address
  pub starts : t.thread.started ≡ not (is_outside p)
  pub births : is_unborn c ≡ is_outside p
  pub announces : is_behind_thread p ≡ true → has_announced c ≡ true
  pub loops : is_returned p ≡ true → (is_looping c ≡ true) × (t.result ≡ some address)

abbrev pub IsSound : ℕ → ℕ → EventLoopThread → Type 0
IsSound tid address t = IsSoundAt tid address t.child t.parent t

pub has_told-looping : (c : Child) → is_looping c ≡ true → has_told c ≡ true
unfolding is_looping has_told
has_told-looping c h = ground arith

pub has_tid-has_announced : (c : Child) → has_announced c ≡ true → has_tid c ≡ true
unfolding has_announced has_tid
has_tid-has_announced c h = ground arith
