-- ===== src/Thread/Condition.antt =====
-- src/thread/Condition.h and Condition.cc, and the pause of src/thread/CurrentThread.cc.
-- A critical section runs under the lock and is one step of its owner. A thread that waits is
-- counted as asleep until a signal (or a spurious wakeup) makes it woken; a woken thread takes the
-- lock again and tests its condition once more.
pub mod Served
pub mod Deadline
mod Tests
use wethands.Prelude.{ℕ, zero, suc, ◌+◌, ◌-◌, ◌*◌, ◌/◌, ◌%◌, ltb, if◌then◌else◌}
use wethands.Prelude.Int.{ℤ, pos, negsuc}

-- The threads that sleep on a condition variable, and those that were woken and have not yet taken
-- the lock again.
pub record Condition : Type 0 where
  pub asleep : ℕ
  pub woken : ℕ

abbrev pub unused : Condition
unused = record { asleep = 0; woken = 0 }

-- `Wait`.
unfoldable pub wait : Condition → Condition
wait c = record c { asleep = c.asleep + 1 }

-- `Notify`: a sleeper is woken, if there is one. A spurious wakeup does the same.
unfoldable pub notify : Condition → Condition
notify c = if ltb 0 c.asleep then record { asleep = c.asleep - 1; woken = c.woken + 1 } else c

-- `NotifyAll`.
unfoldable pub notify_all : Condition → Condition
notify_all c = record { asleep = 0; woken = c.woken + c.asleep }

-- A woken thread takes the lock again and leaves `Wait`.
unfoldable pub resume : Condition → Condition
resume c = record c { woken = c.woken - 1 }

-- A time in seconds and nanoseconds, `struct timespec`, whose fields are signed.
pub record Timespec : Type 0 where
  pub seconds : ℤ
  pub nanoseconds : ℤ

abbrev pub nanoseconds_per_second : ℕ
nanoseconds_per_second = 1000000000

-- The sum of a signed number and a natural one, and `/` and `%` on signed numbers, which round
-- towards 0.
unfoldable pub plus : ℤ → ℕ → ℤ
plus (pos n) m = pos (n + m)
plus (negsuc n) m = if ltb n m then pos (m - (n + 1)) else negsuc (n - m)

abbrev pub minus : ℕ → ℤ
minus zero = pos 0
minus (suc n) = negsuc n

unfoldable pub quotient : ℤ → ℕ → ℤ
quotient (pos n) d = pos (n / d)
quotient (negsuc n) d = minus ((n + 1) / d)

unfoldable pub remainder : ℤ → ℕ → ℤ
remainder (pos n) d = pos (n % d)
remainder (negsuc n) d = minus ((n + 1) % d)

-- The time at which `WaitForSeconds` gives up, from a reading of the clock. `timeout` is
-- `seconds * kNanosecondsPerSecond` as an integer; the sums stay within an `int64_t` for a timeout of
-- less than 292 years.
unfoldable pub deadline : ℕ → ℕ → ℤ → Timespec
deadline tv_sec tv_nsec timeout =
    let nanoseconds = plus timeout tv_nsec in
    record {
      seconds = plus (quotient nanoseconds nanoseconds_per_second) tv_sec;
      nanoseconds = remainder nanoseconds nanoseconds_per_second;
    }

-- What `SleepUsec` asks nanosleep(2) for.
unfoldable pub sleep_time : ℕ → Timespec
sleep_time usec = record {
  seconds = pos (usec / 1000000);
  nanoseconds = pos (usec % 1000000 * 1000);
}
