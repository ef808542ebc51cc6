-- ===== src/Net/Connector/Safety.antt =====
-- No assertion of the connector fails under any schedule.
use wethands.Prelude.{
  ℕ, ◌+◌, ◌≤◌, ◌≡◌, ◌≢◌, refl, Bool, true, false, Option, none, some, List, [], ◌∷◌, Returns, ok,
  fault, aborted, assert_failed, Never, ◌⊎◌, inl, inr, Bool-cases, ◌>>=◌, arith, ==_iff,
}
use wethands.Prelude.Halting.{Halted, run_or_halt}
use wethands.Reactor.Channel.{
  Channel, new_channel, enable_writing, disable_writing, register_to_poller, has_bit, is_writing,
  remove_from_poller,
}
use wethands.Net.Connector.{
  Connector, ConnectResult, in_progress, retry_later, give_up, new_connector, cancel_timer,
  next_delay, retry, channel_of, register_for_connecting, unregister_for_connecting,
  leave_connecting, is_unregistered, start_in_loop, restart, stop_in_loop, stop_now, handle_write,
  timer_fires, Event, restarts, stops, writable, fires, fires_late, timer_fires_late, step, run,
  init_retry_delay,
}

-- A delay between two attempts.
abbrev pub IsDelay : ℕ → Type 0
IsDelay n = (1 ≤ n) × (n ≤ 30)

-- The connector rests, waits for the channel to be writable, or waits for its one retry timer.
pub data IsValid : Connector → Type 0 where
  resting :
      (socket : Bool) (channel : Option Channel) (delay : ℕ) (stop : Bool) (idx n : ℕ)
      → is_unregistered channel ≡ true
      → IsDelay delay
      → IsValid (record {
        has_socket = socket;
        socket_channel = channel;
        connecting = false;
        retry_delay = delay;
        stop = stop;
        timer_idx = idx;
        timers = [];
        established = n;
      })
  waiting :
      (delay : ℕ) (stop : Bool) (idx n : ℕ)
      → IsDelay delay
      → IsValid (record {
        has_socket = true;
        socket_channel = some (enable_writing new_channel);
        connecting = true;
        retry_delay = delay;
        stop = stop;
        timer_idx = idx;
        timers = [];
        established = n;
      })
  retrying :
      (socket : Bool) (channel : Option Channel) (delay after : ℕ) (stop : Bool) (idx n : ℕ)
      → is_unregistered channel ≡ true
      → IsDelay delay
      → IsDelay after
      → IsValid (record {
        has_socket = socket;
        socket_channel = channel;
        connecting = false;
        retry_delay = delay;
        stop = stop;
        timer_idx = idx;
        timers = (idx, after) ∷ [];
        established = n;
      })

-- Nothing is under way.
abbrev pub rest_state : Bool → Option Channel → ℕ → Bool → ℕ → ℕ → Connector
rest_state socket channel delay stop idx n = record {
  has_socket = socket;
  socket_channel = channel;
  connecting = false;
  retry_delay = delay;
  stop = stop;
  timer_idx = idx;
  timers = [];
  established = n;
}

next_delay-IsDelay : (n : ℕ) → IsDelay n → IsDelay (next_delay n)
unfolding next_delay
next_delay-IsDelay n (low, high) = ground arith

cancel_last : (idx after : ℕ) → cancel_timer idx ((idx, after) ∷ []) ≡ []
unfolding cancel_timer
cancel_last idx after = rw ((==_iff idx idx).1 refl) refl

retry_rest :
    (socket : Bool) (channel : Option Channel) (delay : ℕ) (stop : Bool) (idx n : ℕ)
    → is_unregistered channel ≡ true
    → IsDelay delay
    → IsValid (retry (rest_state socket channel delay stop idx n))
unfolding retry
retry_rest socket channel delay true idx n free d = resting socket channel delay true idx n free d
retry_rest socket channel delay false idx n free d =
    retrying socket channel (next_delay delay) delay false (idx + 1) n free
      (next_delay-IsDelay delay d) d

pub start_rest :
    (answer : ConnectResult) (socket : Bool) (channel : Option Channel) (delay : ℕ) (stop : Bool)
    (idx n : ℕ)
    → is_unregistered channel ≡ true
    → IsDelay delay
    → Returns (start_in_loop answer (rest_state socket channel delay stop idx n)) IsValid
unfolding start_in_loop register_for_connecting channel_of new_channel
start_rest answer socket channel delay true idx n free d =
    resting socket channel delay true idx n free d
start_rest in_progress socket channel delay false idx n free d =
    rw free (waiting delay false idx n d)
start_rest retry_later socket channel delay false idx n free d =
    rw free
      (retry_rest true (some new_channel) delay false idx n (unfold is_unregistered in refl) d)
start_rest give_up socket channel delay false idx n free d =
    rw free (resting false none delay false idx n (unfold is_unregistered in refl) d)

pub restart_lem :
    (answer : ConnectResult) (c : Connector) → IsValid c → Returns (restart answer c) IsValid
unfolding restart leave_connecting unregister_for_connecting channel_of new_channel enable_writing
    disable_writing register_to_poller remove_from_poller is_writing has_bit cancel_timer
restart_lem answer c (resting socket channel delay stop idx n free d) =
    start_rest answer socket channel init_retry_delay false idx n free (omega arith)
restart_lem answer c (waiting delay stop idx n d) =
    start_rest answer true _ init_retry_delay false idx n (unfold is_unregistered in refl)
      (omega arith)
restart_lem answer c (retrying socket channel delay after stop idx n free d d') =
    rw ((==_iff idx idx).1 refl)
      (start_rest answer socket channel init_retry_delay false idx n free (omega arith))

-- Stopping a connector that does not wait for its channel.
pub stop_lem : (c : Connector) → IsValid c → c.connecting ≡ false → Returns (stop_now c) IsValid
unfolding stop_now stop_in_loop leave_connecting cancel_timer
stop_lem c (resting socket channel delay stop idx n free d) e =
    resting false none delay true idx n (unfold is_unregistered in refl) d
stop_lem c (waiting delay stop idx n d) e = cc e
stop_lem c (retrying socket channel delay after stop idx n free d d') e =
    rw ((==_iff idx idx).1 refl)
      (resting false none delay true idx n (unfold is_unregistered in refl) d)

-- The socket is closed before its channel leaves the poller.
pub stop_aborts : (c : Connector) → IsValid c → c.connecting ≡ true → stop_now c ≡ fault aborted
unfolding stop_now stop_in_loop leave_connecting unregister_for_connecting channel_of new_channel
    enable_writing disable_writing register_to_poller remove_from_poller is_writing has_bit
stop_aborts c (resting socket channel delay stop idx n free d) e = cc e
stop_aborts c (waiting delay stop idx n d) e = refl
stop_aborts c (retrying socket channel delay after stop idx n free d d') e = cc e

handle_write_keeps :
    (error self has_callback : Bool) (delay : ℕ) (stop : Bool) (idx n : ℕ)
    → IsDelay delay
    → Returns
        (handle_write error self has_callback (record {
          has_socket = true;
          socket_channel = some (enable_writing new_channel);
          connecting = true;
          retry_delay = delay;
          stop = stop;
          timer_idx = idx;
          timers = [];
          established = n;
        }))
        IsValid
unfolding handle_write unregister_for_connecting channel_of new_channel enable_writing
    disable_writing register_to_poller remove_from_poller is_unregistered
handle_write_keeps true self has_callback delay stop idx n d =
    retry_rest true _ delay stop idx n refl d
handle_write_keeps false true has_callback delay stop idx n d =
    retry_rest true _ delay stop idx n refl d
handle_write_keeps false false true delay stop idx n d =
    resting false _ delay stop idx (n + 1) refl d
handle_write_keeps false false false delay stop idx n d = resting true _ delay stop idx n refl d

pub writable_lem :
    (c : Connector) (error self has_callback : Bool)
    → IsValid c
    → Returns (step c (writable error self has_callback)) IsValid
unfolding step
writable_lem c error self has_callback (resting socket channel delay stop idx n free d) =
    resting socket channel delay stop idx n free d
writable_lem c error self has_callback (waiting delay stop idx n d) =
    handle_write_keeps error self has_callback delay stop idx n d
writable_lem c error self has_callback (retrying socket channel delay after stop idx n free d d') =
    retrying socket channel delay after stop idx n free d d'

pub fires_lem :
    (c : Connector) (answer : ConnectResult) → IsValid c → Returns (step c (fires answer)) IsValid
unfolding step timer_fires
fires_lem c answer (resting socket channel delay stop idx n free d) =
    resting socket channel delay stop idx n free d
fires_lem c answer (waiting delay stop idx n d) = waiting delay stop idx n d
fires_lem c answer (retrying socket channel delay after stop idx n free d d') =
    rw (cancel_last idx after) (start_rest answer socket channel delay stop idx n free d)

-- A stop while the connector waits for its channel, which aborts; and a retry timer that was taken
-- out before the connector was restarted, whose attempt finds the channel registered when the
-- restart is under way.
unfoldable pub IsHazard : Connector → Event → Type 0
IsHazard c (restarts answer) = Never
IsHazard c stops = (c.connecting ≡ true) × (step c stops ≡ fault aborted)
IsHazard c (writable error self has_callback) = Never
IsHazard c (fires answer) = Never
IsHazard c (fires_late first answer) =
    (c.timers ≢ []) × (first ≡ in_progress → step c (fires_late first answer) ≡ fault assert_failed)

late_timer :
    (answer : ConnectResult) (socket : Bool) (channel : Option Channel) (delay : ℕ) (stop : Bool)
    (idx n : ℕ)
    → is_unregistered channel ≡ true
    → (restart in_progress (rest_state socket channel delay stop idx n) >>= start_in_loop answer)
      ≡ fault assert_failed
unfolding restart leave_connecting start_in_loop register_for_connecting channel_of new_channel
    enable_writing register_to_poller cancel_timer
late_timer answer socket channel delay stop idx n free = rw free (unfold is_unregistered in refl)

pub step_lem : (c : Connector) (e : Event) → IsValid c → Returns (step c e) IsValid ⊎ IsHazard c e
unfolding step timer_fires_late IsHazard
step_lem c (restarts answer) v = inl (restart_lem answer c v)
step_lem c stops v = elim (Bool-cases c.connecting) [
  | inl waits ↦ inr (waits, stop_aborts c v waits)
  | inr rests ↦ inl (stop_lem c v rests)
]
step_lem c (writable error self has_callback) v = inl (writable_lem c error self has_callback v)
step_lem c (fires answer) v = inl (fires_lem c answer v)
step_lem c (fires_late first answer) (resting socket channel delay stop idx n free d) =
    inl (resting socket channel delay stop idx n free d)
step_lem c (fires_late first answer) (waiting delay stop idx n d) = inl (waiting delay stop idx n d)
step_lem c (fires_late first answer) (retrying socket channel delay after stop idx n free d d') =
    inr (
      λ e. cc e,
      λ e. rw (e, cancel_last idx after) (late_timer answer socket channel delay stop idx n free),
    )

-- Under any schedule of restarts, stops, writable events and retry timers, either no assertion
-- fails and nothing aborts: the channel is registered exactly while the connector waits for it, at
-- most one retry timer is set, and the delays lie between 1 and 30 seconds. Or all this holds up to
-- one of two events: a stop while the connector waits for its channel, whose epoll_ctl on the closed
-- socket aborts; or a restart between the moment at which the timer queue takes out the retry timer
-- and its callback, where an assertion fails if the restart is under way.
pub run-IsValid :
    (c : Connector) (es : List Event)
    → IsValid c
    → Returns (run c es) IsValid ⊎ Halted run (λ later. IsValid) IsHazard (ok c) es
unfolding run
run-IsValid c es v =
    run_or_halt step run (λ later. IsValid) IsHazard (λ s. refl) (λ s e later. refl)
      (λ e later s. step_lem s e) es c v

-- A new connector is at rest.
pub new_connector-IsValid : IsValid new_connector
unfolding new_connector
new_connector-IsValid =
    resting false none 1 false 0 0 (unfold is_unregistered in refl) (omega arith)
