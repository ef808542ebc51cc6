-- ===== src/Thread/Condition/Deadline.antt =====
-- The times that are handed to the system.
use wethands.Prelude.{ℕ, ◌+◌, ◌*◌, ◌<◌, ◌≡◌}
use wethands.Prelude.Int.{pos, negsuc}
use wethands.Thread.Condition.{Timespec, nanoseconds_per_second}

-- A time that `pthread_cond_timedwait` and `nanosleep` take, of so many nanoseconds in all: they
-- refuse nanoseconds below 0 or from a whole second on.
pub record IsTime (t : Timespec) (total : ℕ) : Type 0 where
  pub whole : ℕ
  pub part : ℕ
  pub seconds_are : t.seconds ≡ pos whole
  pub nanoseconds_are : t.nanoseconds ≡ pos part
  pub normal : part < nanoseconds_per_second
  pub sums : whole * nanoseconds_per_second + part ≡ total

-- A time whose nanoseconds are below 0.
abbrev pub IsRefused : Timespec → Type 0
IsRefused t = (n : ℕ) × (t.nanoseconds ≡ negsuc n)
