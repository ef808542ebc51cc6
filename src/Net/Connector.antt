-- ===== src/Net/Connector.antt =====
-- src/net/Connector.h and Connector.cc: the state of a connection attempt and its retries.
-- The timer queue of the loop is the timers that the connector asked for, by number; `none` of
-- `socket` and `socket_channel` is the null pointer.
pub mod Safety
mod Tests
use wethands.Prelude.{
  ℕ, ◌+◌, ◌*◌, Bool, true, false, not, Option, none, some, List, [], ◌∷◌, ◌++◌, ltb, ◌==◌,
  if◌then◌else◌, Result, ok, fault, null_pointer, aborted, require, assert, ◌>>=◌, ◌>>◌,
}
use wethands.Reactor.Channel.{
  Channel, new_channel, enable_writing, disable_writing, is_writing, remove_from_poller,
}

-- What `connect` tells, as the `switch` sorts it.
pub data ConnectResult : Type 0 where
  in_progress retry_later give_up : ConnectResult

abbrev pub init_retry_delay : ℕ
init_retry_delay = 1

abbrev pub max_retry_delay : ℕ
max_retry_delay = 30

pub record Connector : Type 0 where
  pub has_socket : Bool
  pub socket_channel : Option Channel
  pub connecting : Bool
  pub retry_delay : ℕ
  pub stop : Bool
  -- `timerIdx_`, the number of the timer that was set last; 0 is none.
  pub timer_idx : ℕ
  -- The timers in the queue, which were set and not cancelled or taken out, with their delays in seconds.
  pub timers : List (ℕ × ℕ)
  -- How many connections were handed to the callback.
  pub established : ℕ

unfoldable pub new_connector : Connector
new_connector = record {
  has_socket = false;
  socket_channel = none;
  connecting = false;
  retry_delay = init_retry_delay;
  stop = false;
  timer_idx = 0;
  timers = [];
  established = 0;
}

-- `CancelTimer`: a timer that the queue has taken out to run it is not found, and still runs.
unfoldable pub cancel_timer : ℕ → List (ℕ × ℕ) → List (ℕ × ℕ)
cancel_timer idx [] = []
cancel_timer idx ((i, delay) ∷ timers) =
    let rest = cancel_timer idx timers in if i == idx then rest else (i, delay) ∷ rest

unfoldable pub next_delay : ℕ → ℕ
next_delay delay = if ltb max_retry_delay (delay * 2) then max_retry_delay else delay * 2

unfoldable pub retry : Connector → Connector
retry c = if c.stop then c else record c {
  timer_idx = c.timer_idx + 1;
  timers = (c.timer_idx + 1, c.retry_delay) ∷ c.timers;
  retry_delay = next_delay c.retry_delay;
}

-- The channel behind a pointer that is asserted not to be null.
unfoldable pub channel_of : Connector → Result Channel
channel_of c = elim c.socket_channel [ none ↦ fault null_pointer | some channel ↦ ok channel ]

unfoldable pub register_for_connecting : Connector → Result Connector
register_for_connecting c = do
  assert c.has_socket
  channel ← channel_of c
  assert (not channel.registered_to_poller)
  ok (record c { socket_channel = some (enable_writing channel) })

-- epoll_ctl(2) fails on a descriptor that was closed, and the poller aborts.
unfoldable pub unregister_for_connecting : Connector → Result Connector
unregister_for_connecting c = do
  channel ← channel_of c
  assert channel.registered_to_poller
  require c.has_socket aborted
  gone ← remove_from_poller (disable_writing channel)
  ok (record c { socket_channel = some gone })

-- The assertions before `UnregisterForConnecting` in `Restart` and `StopInLoop`.
unfoldable pub leave_connecting : Connector → Result Connector
leave_connecting c =
    if c.connecting
    then (do
      channel ← channel_of c
      assert (is_writing channel)
      assert channel.registered_to_poller
      left ← unregister_for_connecting c
      ok (record left { connecting = false }))
    else ok c

unfoldable pub is_unregistered : Option Channel → Bool
is_unregistered none = true
is_unregistered (some channel) = not channel.registered_to_poller

unfoldable pub start_in_loop : ConnectResult → Connector → Result Connector
start_in_loop answer c = if c.stop then ok c else (do
  assert (is_unregistered c.socket_channel)
  let fresh : Connector = record c { has_socket = true; socket_channel = some new_channel }
  elim answer [
    | in_progress ↦ (do
      waiting ← register_for_connecting fresh
      ok (record waiting { connecting = true }))
    | retry_later ↦ ok (retry fresh)
    | give_up ↦ ok (record fresh { has_socket = false; socket_channel = none })
  ])

unfoldable pub restart : ConnectResult → Connector → Result Connector
restart answer c = do
  left ← leave_connecting c
  start_in_loop answer (record left {
    retry_delay = init_retry_delay;
    stop = false;
    timers = cancel_timer left.timer_idx left.timers;
  })

unfoldable pub stop_in_loop : Connector → Result Connector
stop_in_loop c = do
  left ← leave_connecting (record c { has_socket = false })
  ok (record left { timers = cancel_timer left.timer_idx left.timers; socket_channel = none })

-- `Stop` in the loop's thread.
unfoldable pub stop_now : Connector → Result Connector
stop_now c = stop_in_loop (record c { stop = true })

-- The write event: `error` is `ErrorCode() != 0`, `self` is `IsSelfConnect()`.
unfoldable pub handle_write : Bool → Bool → Bool → Connector → Result Connector
handle_write error self has_callback c = do
  left ← unregister_for_connecting c
  let idle : Connector = record left { connecting = false }
  assert idle.has_socket
  ok (
      if error
      then retry idle
      else if self
      then retry idle
      else if has_callback
      then record idle { has_socket = false; established = idle.established + 1 }
      else idle)

-- A retry timer runs out: the queue takes it out and runs it.
unfoldable pub timer_fires : ConnectResult → ℕ → Connector → Result Connector
timer_fires answer idx c = start_in_loop answer (record c { timers = cancel_timer idx c.timers })

-- The queue takes out a retry timer together with other timers, and one of those restarts the
-- connector before the retry timer runs.
unfoldable pub timer_fires_late : ConnectResult → ConnectResult → ℕ → Connector → Result Connector
timer_fires_late first answer idx c = do
  restarted ← restart first (record c { timers = cancel_timer idx c.timers })
  start_in_loop answer restarted

-- What happens to a connector after it was started: the owner restarts or stops it, its channel is
-- writable, or its retry timer runs out, on its own or behind a timer that restarts the connector.
pub data Event : Type 0 where
  restarts : ConnectResult → Event
  stops : Event
  writable : Bool → Bool → Bool → Event
  fires : ConnectResult → Event
  fires_late : ConnectResult → ConnectResult → Event

-- The poller reports a channel only while it is registered.
unfoldable pub step : Connector → Event → Result Connector
step c (restarts answer) = restart answer c
step c stops = stop_now c
step c (writable error self has_callback) =
    if c.connecting then handle_write error self has_callback c else ok c
step c (fires answer) = elim c.timers [ [] ↦ ok c | t ∷ ts ↦ timer_fires answer t.0 c ]
step c (fires_late first answer) = elim c.timers [
  | [] ↦ ok c
  | t ∷ ts ↦ timer_fires_late first answer t.0 c
]

unfoldable pub run : Connector → List Event → Result Connector
run c [] = ok c
run c (e ∷ es) = step c e >>= λ c'. run c' es
