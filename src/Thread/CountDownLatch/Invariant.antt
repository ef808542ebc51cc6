-- ===== src/Thread/CountDownLatch/Invariant.antt =====
-- Nobody passes the latch too early, and nobody sleeps on it for ever.
use wethands.Prelude.{
  zero, suc, refl, ◌<◌, ◌≡◌, true, false, List, [], ◌∷◌, ltb, Bool-cases, inl, inr, arith,
}
use wethands.Prelude.Int.{ℤ, is_positive, is_zero, decrement, pos, negsuc}
use wethands.Thread.Condition.{wait, notify, notify_all, resume}
use wethands.Thread.CountDownLatch.{
  CountDownLatch, new_count_down_latch, count_down, wait_latch, Event, counts_down, calls_wait,
  resumes_wait, wakes, step, run,
}

-- A thread sleeps only above zero, and has passed only at zero or below.
pub record IsFair (l : CountDownLatch) : Type 0 where
  pub sleepers : 0 < l.cond.asleep → is_positive l.count ≡ true
  pub passers : 0 < l.passed → is_positive l.count ≡ false

below_positive : (z : ℤ) → is_positive z ≡ false → is_positive (decrement z) ≡ false
below_positive (pos zero) h = refl
below_positive (pos (suc n)) h = cc
below_positive (negsuc n) h = refl

above_zero :
    (z : ℤ)
    → is_positive z ≡ true
    → is_zero (decrement z) ≡ false
    → is_positive (decrement z) ≡ true
above_zero (pos zero) h k = cc
above_zero (pos (suc zero)) h k = cc
above_zero (pos (suc (suc n))) h k = refl
above_zero (negsuc n) h k = cc

-- The last one to count down wakes all sleepers.
count_down-IsFair : (l : CountDownLatch) → IsFair l → IsFair (count_down l)
unfolding count_down notify_all
count_down-IsFair l f = elim (Bool-cases (is_zero (decrement l.count))) [
  | inl last ↦
      rw last
        (record { sleepers = λ h. elim h [ ]; passers = λ h. below_positive l.count (f.passers h) })
  | inr more ↦ rw more (record {
    sleepers = λ h. above_zero l.count (f.sleepers h) more;
    passers = λ h. below_positive l.count (f.passers h);
  })
]

-- To wait changes only what is true of the count as it is.
wait_latch-IsFair : (l : CountDownLatch) → IsFair l → IsFair (wait_latch l)
unfolding wait_latch wait
wait_latch-IsFair l f = elim (Bool-cases (is_positive l.count)) [
  | inl waits ↦ rw waits (record { sleepers = λ h. waits; passers = f.passers })
  | inr passes ↦ rw passes (record { sleepers = f.sleepers; passers = λ h. passes })
]

step-IsFair : (l : CountDownLatch) (e : Event) → IsFair l → IsFair (step l e)
unfolding step notify resume
step-IsFair l counts_down f = count_down-IsFair l f
step-IsFair l calls_wait f = wait_latch-IsFair l f
step-IsFair l resumes_wait f = elim (Bool-cases (ltb 0 l.cond.woken)) [
  | inl some_woken ↦ rw some_woken (
      wait_latch-IsFair (record l { cond = resume l.cond })
        (record { sleepers = f.sleepers; passers = f.passers }))
  | inr none_woken ↦ rw none_woken f
]
step-IsFair l wakes f = record {
  sleepers = λ h. f.sleepers (ground (arith, h));
  passers = f.passers;
}

run-IsFair : (l : CountDownLatch) (es : List Event) → IsFair l → IsFair (run l es)
unfolding run
run-IsFair l [] f = f
run-IsFair l (e ∷ es) f = run-IsFair (step l e) es (step-IsFair l e f)

-- Whatever the schedule of threads that count down, wait, are woken and resume, also beyond zero: a
-- thread sleeps on the latch only while the count is above zero, and one has passed only once it is
-- not.
pub run_latch-IsFair : (count : ℤ) (es : List Event) → IsFair (run (new_count_down_latch count) es)
unfolding new_count_down_latch
run_latch-IsFair count es =
    run-IsFair (new_count_down_latch count) es
      (record { sleepers = λ h. elim h [ ]; passers = λ h. elim h [ ] })
