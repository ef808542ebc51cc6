-- ===== src/Net/TcpConnection/Schedule.antt =====
-- Any schedule of sends, shutdowns, forced closes, writable events and queued tasks.
use wethands.Prelude.{
  ℕ, ◌+◌, ◌≤◌, ◌≡◌, Bool, true, false, List, [], ◌∷◌, ◌++◌, if◌then◌else◌, length, Result, ok,
  fault, ◌>>=◌,
}
use wethands.Net.Buffer.{max_size}
use wethands.Net.TcpConnection.{
  TcpConnection, States, connected, is_state, WriteResult, Task, send_in_loop_task, start_read_task,
  stop_read_task, shutdown_task, force_close_task, high_water_mark_task, note, send_in_loop, send,
  shutdown_in_loop, shutdown, force_close_in_loop, force_close, handle_write, start_read_in_loop,
  stop_read_in_loop, high_water_mark_callback,
}
use wethands.Net.TcpConnection.Stream.{task_bytes, queued, has_shutdown, IsValid}

-- `sends in_loop bytes` and the like are calls, `writable` is a write event, and `runs_task` is
-- the loop taking the oldest queued task.
pub data Event : Type 0 where
  sends : Bool → List ℕ → Event
  shutdowns : Bool → Event
  force_closes : Bool → Event
  writable : Event
  runs_task : Event

module _ (write : List ℕ → WriteResult) where
  unfoldable pub run_task : TcpConnection → Task → Result TcpConnection
  run_task c (send_in_loop_task bytes) = send_in_loop write c bytes
  run_task c start_read_task = ok (start_read_in_loop c)
  run_task c stop_read_task = ok (stop_read_in_loop c)
  run_task c shutdown_task = ok (shutdown_in_loop c)
  run_task c force_close_task = force_close_in_loop c
  run_task c (high_water_mark_task n) = ok (note c (high_water_mark_callback n))

  unfoldable pub run_next : TcpConnection → List Task → Result TcpConnection
  run_next c [] = ok c
  run_next c (task ∷ tasks) = run_task (record c { pending = tasks }) task

  unfoldable pub step : TcpConnection → Event → Result TcpConnection
  step c (sends in_loop bytes) = send write in_loop c bytes
  step c (shutdowns in_loop) = ok (shutdown in_loop c)
  step c (force_closes in_loop) = force_close in_loop c
  step c writable = handle_write write c
  step c runs_task = run_next c c.pending

-- An event, with what write(2) answers during it: the answers differ from one to the next.
abbrev pub Turn : Type 0
Turn = (List ℕ → WriteResult) × Event

unfoldable pub run : TcpConnection → List Turn → Result TcpConnection
run c [] = ok c
run c ((write, e) ∷ turns) = step write c e >>= λ c'. run c' turns

-- What an event adds to the stream: the bytes of a send that is carried out while connected.
unfoldable pub accepted_task : States → List Task → List ℕ
accepted_task s [] = []
accepted_task s (task ∷ tasks) = if is_state s connected then task_bytes task else []

unfoldable pub accepted : TcpConnection → Event → List ℕ
accepted c (sends true bytes) = if is_state c.state connected then bytes else []
accepted c (sends false bytes) = []
accepted c (shutdowns in_loop) = []
accepted c (force_closes in_loop) = []
accepted c writable = []
accepted c runs_task = accepted_task c.state c.pending

-- What a schedule adds to it.
unfoldable pub accepted_run : TcpConnection → List Turn → List ℕ
accepted_run c [] = []
accepted_run c ((write, e) ∷ turns) =
    accepted c e ++ (elim (step write c e) [ ok c' ↦ accepted_run c' turns | fault f ↦ [] ])

abbrev pub event_bytes : Event → ℕ
event_bytes (sends in_loop bytes) = length bytes
event_bytes _ = 0

abbrev pub schedule_bytes : List Turn → ℕ
schedule_bytes [] = 0
schedule_bytes ((write, e) ∷ turns) = event_bytes e + schedule_bytes turns

-- What every schedule keeps, while `budget` bytes are still to be sent.
pub record Good (budget : ℕ) (c : TcpConnection) : Type 0 where
  pub valid : IsValid c
  pub write_open : c.write_shut ≡ false
  pub late : has_shutdown c.pending ≡ true → is_state c.state connected ≡ false
  pub closable : c.has_close_callback ≡ true
  pub fits : length c.output_buffer.buffer + queued c.pending + budget ≤ max_size
