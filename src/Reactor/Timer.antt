-- ===== src/Reactor/Timer.antt =====
-- src/reactor/Timer.h and Timer.cc with src/utils/Timestamp.h: a timer and the index that names it.
-- A timestamp is its microseconds since the epoch, which it does not precede.
use wethands.Prelude.{ℕ, ◌+◌, Bool, not, Option, some, ltb, ◌==◌, if◌then◌else◌}

-- What the code asks of the `double` of an interval: is it positive, and how many whole
-- microseconds it has.
pub record Interval : Type 0 where
  pub positive : Bool
  pub microseconds : ℕ

abbrev pub invalid : ℕ
invalid = 0

unfoldable pub add_seconds : ℕ → Interval → ℕ
add_seconds timestamp seconds = timestamp + seconds.microseconds

pub record Timer : Type 0 where
  -- Which callback it runs.
  pub callback : ℕ
  pub expiration : ℕ
  pub interval : Interval
  pub repeated : Bool
  pub sequence : ℕ

-- The constructor; `count` is the counter of all timers before it.
unfoldable pub new_timer : ℕ → ℕ → Interval → ℕ → Timer
new_timer callback when_ interval count = record {
  callback = callback;
  expiration = when_;
  interval = interval;
  repeated = interval.positive;
  sequence = count + 1;
}

unfoldable pub restart : Timer → ℕ → Timer
restart t now = record t { expiration = if t.repeated then add_seconds now t.interval else invalid }

-- `none` is the null pointer.
pub record TimerIndex : Type 0 where
  pub timer : Option Timer
  pub expiration : ℕ
  pub sequence : ℕ

abbrev pub index_of : Timer → TimerIndex
index_of t = record { timer = some t; expiration = t.expiration; sequence = t.sequence }

-- `operator<`.
unfoldable pub is_before : TimerIndex → TimerIndex → Bool
is_before a b =
    if not (a.expiration == b.expiration)
    then ltb a.expiration b.expiration
    else ltb a.sequence b.sequence
