-- ===== src/Net/TcpConnection.antt =====
-- src/net/TcpConnection.h and TcpConnection.cc: one connection and the loop that serves it.
-- `in_loop` says whether the caller runs in the loop's thread: `RunInLoop` runs the task at once
-- there, and otherwise queues it. A call of a user's callback is an entry of `log`; what the user
-- does in it is a later operation of the schedule.
pub mod Stream
pub mod Send
pub mod Write
pub mod Read
pub mod Close
pub mod Schedule
pub mod Delivery
mod Tests
use wethands.Prelude.{
  ℕ, ◌+◌, ◌-◌, ◌*◌, Bool, true, false, not, ◌&&◌, ◌||◌, Option, none, some, List, [], ◌∷◌, ◌++◌,
  ltb, leb, ◌==◌, if◌then◌else◌, length, take, drop, Result, ok, fault, aborted, uncaught, require,
  assert, ◌>>=◌, ◌>>◌, add_size, sub_size,
}
use wethands.Reactor.Channel.{
  Channel, new_channel, enable_reading, disable_reading, enable_writing, disable_writing,
  disable_all, is_reading, is_writing, remove_from_poller, Callbacks, handle_event,
}
use wethands.Net.Buffer.{
  Buffer, peek, initial_size, new_buffer, readable_bytes, append, retrieve, retrieve_all_as_string,
  read_fd,
}

pub data States : Type 0 where
  connecting connected disconnecting disconnected : States

abbrev pub is_state : States → States → Bool
is_state connecting connecting = true
is_state connected connected = true
is_state disconnecting disconnecting = true
is_state disconnected disconnected = true
is_state _ _ = false

-- The `errno` values that `SendInLoop` tells apart.
pub data Errno : Type 0 where
  epipe eintr ewouldblock other : Errno

-- The answer of write(2).
pub data WriteResult : Type 0 where
  wrote : ℕ → WriteResult
  failed : Errno → WriteResult

-- The user's and the owner's callbacks that were called.
pub data Call : Type 0 where
  connection_callback write_complete_callback message_callback close_callback : Call
  high_water_mark_callback : ℕ → Call

-- What other threads, or the connection itself, queue in the loop.
pub data Task : Type 0 where
  send_in_loop_task : List ℕ → Task
  start_read_task stop_read_task shutdown_task force_close_task : Task
  high_water_mark_task : ℕ → Task

pub record TcpConnection : Type 0 where
  pub state : States
  pub reading : Bool
  pub socket_channel : Channel
  pub input_buffer : Buffer
  pub output_buffer : Buffer
  pub high_water_mark : ℕ
  -- Which callbacks are set.
  pub has_connection_callback : Bool
  pub has_write_complete_callback : Bool
  pub has_message_callback : Bool
  pub has_high_water_mark_callback : Bool
  pub has_close_callback : Bool
  -- The socket: the bytes that the kernel took, and whether the write side was shut.
  pub sent : List ℕ
  pub write_shut : Bool
  -- The loop: its queued tasks, oldest first.
  pub pending : List Task
  pub log : List Call

unfoldable pub note : TcpConnection → Call → TcpConnection
note c call = record c { log = c.log ++ call ∷ [] }

-- `QueueInLoop`.
unfoldable pub queue_in_loop : TcpConnection → Task → TcpConnection
queue_in_loop c task = record c { pending = c.pending ++ task ∷ [] }

-- The constructor; the callbacks are set by the owner before the connection is established.
unfoldable pub new_tcp_connection : Bool → Bool → Bool → Result TcpConnection
new_tcp_connection write_complete message high_water = do
  input ← new_buffer initial_size
  output ← new_buffer initial_size
  ok (record {
    state = connecting;
    reading = false;
    socket_channel = new_channel;
    input_buffer = input;
    output_buffer = output;
    high_water_mark = 64 * 1024 * 1024;
    has_connection_callback = true;
    has_write_complete_callback = write_complete;
    has_message_callback = message;
    has_high_water_mark_callback = high_water;
    has_close_callback = true;
    sent = [];
    write_shut = false;
    pending = [];
    log = [];
  })

-- The queue after the test of the high water mark in `SendInLoop`.
unfoldable pub high_water_pending : TcpConnection → ℕ → ℕ → List Task
high_water_pending c old_bytes total =
    if leb c.high_water_mark total
      && ltb old_bytes c.high_water_mark
      && c.has_high_water_mark_callback
    then c.pending ++ high_water_mark_task total ∷ []
    else c.pending

unfoldable pub want_writing : Channel → Channel
want_writing channel = if is_writing channel then channel else enable_writing channel

-- The end of `SendInLoop`: the high water mark, the output buffer, the interest in writing.
unfoldable pub buffer_rest : TcpConnection → List ℕ → Result TcpConnection
buffer_rest c rest = do
  let old_bytes = readable_bytes c.output_buffer
  buffered ← append c.output_buffer rest
  ok (record c {
    pending = high_water_pending c old_bytes (add_size old_bytes (length rest));
    output_buffer = buffered;
    socket_channel = want_writing c.socket_channel;
  })

-- After a direct write that took the first `n` bytes.
unfoldable pub after_write : TcpConnection → List ℕ → ℕ → Result TcpConnection
after_write c bytes n =
    let written : TcpConnection = record c { sent = c.sent ++ take n bytes } in
    if (sub_size (length bytes) n == 0) && c.has_write_complete_callback
    then ok (note written write_complete_callback)
    else (do
      assert (leb (sub_size (length bytes) n) (length bytes))
      buffer_rest written (drop n bytes))

unfoldable pub send_in_loop : (List ℕ → WriteResult) → TcpConnection → List ℕ → Result TcpConnection
send_in_loop write c bytes =
    if not (is_state c.state connected)
    then ok c
    else if not (is_writing c.socket_channel) && (readable_bytes c.output_buffer == 0)
    then elim (write bytes) [
      | wrote n ↦ after_write c bytes n
      | failed other ↦ fault aborted
      | failed e ↦ buffer_rest c bytes
    ]
    else buffer_rest c bytes

unfoldable pub send : (List ℕ → WriteResult) → Bool → TcpConnection → List ℕ → Result TcpConnection
send write in_loop c bytes =
    if not (is_state c.state connected)
    then ok c
    else if in_loop
    then send_in_loop write c bytes
    else ok (queue_in_loop c (send_in_loop_task bytes))

-- `Send(Buffer*)`: the caller's buffer is emptied whether or not its bytes are sent.
unfoldable pub send_buffer :
    (List ℕ → WriteResult) → Bool → TcpConnection → Buffer → Result (TcpConnection × Buffer)
send_buffer write in_loop c buf = do
  (bytes, rest) ← retrieve_all_as_string buf
  c' ← send write in_loop c bytes
  ok (c', rest)

unfoldable pub start_read_in_loop : TcpConnection → TcpConnection
start_read_in_loop c =
    if not c.reading && not (is_reading c.socket_channel)
    then record c { socket_channel = enable_reading c.socket_channel; reading = true }
    else c

unfoldable pub stop_read_in_loop : TcpConnection → TcpConnection
stop_read_in_loop c =
    if c.reading && is_reading c.socket_channel
    then record c { socket_channel = disable_reading c.socket_channel; reading = false }
    else c

unfoldable pub shutdown_in_loop : TcpConnection → TcpConnection
shutdown_in_loop c =
    if is_state c.state connected && not (is_writing c.socket_channel)
    then record c { write_shut = true }
    else c

unfoldable pub handle_close : TcpConnection → Result TcpConnection
handle_close c = do
  assert (is_state c.state connected || is_state c.state disconnecting)
  let closed : TcpConnection = record c {
    socket_channel = disable_all c.socket_channel;
    state = disconnected;
  }
  require closed.has_close_callback uncaught
  ok (note closed close_callback)

unfoldable pub force_close_in_loop : TcpConnection → Result TcpConnection
force_close_in_loop c =
    if is_state c.state connected || is_state c.state disconnecting then handle_close c else ok c

unfoldable pub start_read : Bool → TcpConnection → TcpConnection
start_read in_loop c = if in_loop then start_read_in_loop c else queue_in_loop c start_read_task

unfoldable pub stop_read : Bool → TcpConnection → TcpConnection
stop_read in_loop c = if in_loop then stop_read_in_loop c else queue_in_loop c stop_read_task

unfoldable pub shutdown : Bool → TcpConnection → TcpConnection
shutdown in_loop c =
    if is_state c.state connected
    then (let c' : TcpConnection = record c { state = disconnecting } in
        if in_loop then shutdown_in_loop c' else queue_in_loop c' shutdown_task)
    else c

-- The enumerator `kDisconnecting` stands in the source's condition by itself, as 2.
abbrev pub disconnecting_value : ℕ
disconnecting_value = 2

unfoldable pub force_close : Bool → TcpConnection → Result TcpConnection
force_close in_loop c =
    if is_state c.state connected || not (disconnecting_value == 0)
    then (let c' : TcpConnection = record c { state = disconnecting } in
        if in_loop then force_close_in_loop c' else ok (queue_in_loop c' force_close_task))
    else ok c

unfoldable pub connection_established : TcpConnection → Result TcpConnection
connection_established c = do
  assert (is_state c.state connecting)
  let c' : TcpConnection = record c {
    socket_channel = enable_reading c.socket_channel;
    state = connected;
  }
  require c'.has_connection_callback uncaught
  ok (note c' connection_callback)

unfoldable pub connection_destroyed : TcpConnection → Result TcpConnection
connection_destroyed c = do
  assert (is_state c.state disconnected)
  gone ← remove_from_poller (disable_all c.socket_channel)
  require c.has_connection_callback uncaught
  ok (note (record c { socket_channel = gone }) connection_callback)

-- `HandleError` only reads SO_ERROR and logs.
unfoldable pub handle_error : TcpConnection → Result TcpConnection
handle_error c = ok c

unfoldable pub handle_read : (ℕ → Option (List ℕ)) → TcpConnection → Result TcpConnection
handle_read readv c = do
  (n, input) ← read_fd readv c.input_buffer
  let c' : TcpConnection = record c { input_buffer = input }
  elim n [
    | none ↦ handle_error c'
    | some k ↦
        if k == 0
        then handle_close c'
        else ok (if c'.has_message_callback then note c' message_callback else c')
  ]

-- The output buffer is empty: no more interest in writing.
unfoldable pub all_written : TcpConnection → TcpConnection
all_written c =
    let quiet : TcpConnection = record c { socket_channel = disable_writing c.socket_channel } in
    let told =
      if quiet.has_write_complete_callback then note quiet write_complete_callback else quiet in
    if is_state told.state disconnecting then shutdown_in_loop told else told

unfoldable pub handle_write : (List ℕ → WriteResult) → TcpConnection → Result TcpConnection
handle_write write c = if not (is_writing c.socket_channel) then ok c else (do
  let bytes = peek c.output_buffer
  elim (write bytes) [
    | failed e ↦ ok c
    | wrote n ↦
        if ltb 0 n
        then (do
          rest ← retrieve c.output_buffer n
          let c' : TcpConnection = record c { output_buffer = rest; sent = c.sent ++ take n bytes }
          ok (if readable_bytes c'.output_buffer == 0 then all_written c' else c'))
        else ok c
  ])
