-- ===== src/Reactor/TimerQueue/Tests.antt =====
-- The queue at concrete inputs.
use wethands.Prelude.{
  ℕ, ◌+◌, ◌*◌, ◌-◌, ◌<◌, ◌≤◌, ◌≡◌, refl, ◌==◌, if◌then◌else◌, true, false, Option, none, some, [],
  ◌∷◌, ◌++◌, Result, ok, Returns, arith,
}
use wethands.Reactor.Timer.{Interval, Timer, restart, add_seconds, index_of, is_before}
use wethands.Reactor.TimerQueue.{
  TimerQueue, Timespec, timespec, negative, get_expired, update_timerfd, add_timer_in_loop,
  cancel_timer_in_loop, handle_read, from_lower_bound, is_empty, has,
}
use wethands.Reactor.TimerQueue.Order.{Every, IsSorted, IsDistinct, get_expired_lem}
use wethands.Reactor.TimerQueue.Run.{IsValid, IsFresh}
use wethands.Reactor.TimerQueue.HandleRead.{HandledRead, handle_read-HandledRead}
use wethands.Reactor.TimerQueue.Cancel.{cancel_restarted}
use wethands.Reactor.TimerQueue.Timerfd.{IsSettime, update_timerfd_outcome}

-- A kernel that does what the manual says.
settime : Timespec → Option ℕ → Option ℕ
settime negative old = old
settime (timespec seconds nanoseconds) old =
    if seconds + nanoseconds == 0 then none else some (seconds * 1000000000 + nanoseconds)

abbrev clock : ℕ → ℕ
clock n = 1000 + 10 * n

abbrev every_second : Interval
every_second = record { positive = true; microseconds = 1000000 }

abbrev never_again : Interval
never_again = record { positive = false; microseconds = 0 }

abbrev tick : Timer
tick = record {
  callback = 0;
  expiration = 900;
  interval = every_second;
  repeated = true;
  sequence = 1;
}

abbrev alarm : Timer
alarm = record {
  callback = 1;
  expiration = 1000;
  interval = never_again;
  repeated = false;
  sequence = 2;
}

abbrev later : Timer
later = record {
  callback = 1;
  expiration = 5000;
  interval = never_again;
  repeated = false;
  sequence = 3;
}

abbrev queue : TimerQueue
queue = record {
  timers = index_of tick ∷ index_of alarm ∷ index_of later ∷ [];
  timerfd = none;
  readings = 0;
  ran = [];
  deleted = [];
}

queue-IsValid : IsValid queue
unfolding IsSorted IsDistinct Every is_before
queue-IsValid = record {
  sorted = ((refl, (refl, tt)), ((refl, tt), (tt, tt)));
  distinct = ((omega arith, (omega arith, tt)), ((omega arith, tt), (tt, tt)));
  sequences = (omega arith, (omega arith, (omega arith, tt)));
  owned = ((tick, refl), ((alarm, refl), ((later, refl), tt)));
}

abbrev fourth : Timer
fourth = record {
  callback = 1;
  expiration = 500;
  interval = every_second;
  repeated = true;
  sequence = 4;
}

fourth-IsFresh : IsFresh 4 queue
unfolding Every
fourth-IsFresh = (omega arith, (omega arith, (omega arith, tt)))

abbrev quiet_callback : ℕ → TimerQueue → Result TimerQueue
quiet_callback k q = ok q

get_expired_lem_example :
    ((get_expired queue 1000).0 ++ (get_expired queue 1000).1.timers ≡ queue.timers)
    × Every (λ x. x.expiration ≤ 1000) (get_expired queue 1000).0
    × Every (λ x. 1000 < x.expiration) (get_expired queue 1000).1.timers
get_expired_lem_example = get_expired_lem queue 1000 queue-IsValid.sorted queue-IsValid.sequences

handle_read-HandledRead_example :
    Returns (handle_read clock settime quiet_callback queue) (HandledRead clock queue)
handle_read-HandledRead_example =
    handle_read-HandledRead clock settime quiet_callback (λ k q. refl) queue queue-IsValid
      (unfold from_lower_bound is_before is_empty in refl)

cancel_restarted_example :
    Returns (add_timer_in_loop clock settime queue (restart fourth 1000)) (λ q'.
      (cancel_timer_in_loop q' (index_of fourth) ≡ q')
      × (has (index_of (restart fourth 1000)) q'.timers ≡ true))
cancel_restarted_example =
    cancel_restarted clock settime queue fourth 1000 queue-IsValid (unfold is_empty in refl)
      fourth-IsFresh (omega arith) refl (unfold add_seconds in omega arith)

settime-IsSettime : IsSettime settime
unfolding settime
settime-IsSettime = record { arms = arms; disarms = λ old. refl; refuses = λ old. refl }
  where
    arms :
        (seconds nanoseconds : ℕ) (old : Option ℕ)
        → 0 < seconds + nanoseconds
        → nanoseconds < 1000000000
        → settime (timespec seconds nanoseconds) old ≡ some (seconds * 1000000000 + nanoseconds)
    arms s n old some_time small = ground arith

update_timerfd_outcome_example :
    (2000 ≤ clock 0 → (update_timerfd clock settime queue 2000).timerfd ≡ some 1000)
    × (clock 0 < 2000
        → clock 1 < 2000
        → (update_timerfd clock settime queue 2000).timerfd ≡ some ((2000 - clock 1) * 1000))
    × (clock 0 < 2000 → clock 1 ≡ 2000 → (update_timerfd clock settime queue 2000).timerfd ≡ none)
    × (clock 0 < 2000
        → 2000 < clock 1
        → (update_timerfd clock settime queue 2000).timerfd ≡ queue.timerfd)
update_timerfd_outcome_example = update_timerfd_outcome clock settime queue 2000 settime-IsSettime
