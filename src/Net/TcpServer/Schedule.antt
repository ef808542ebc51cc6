-- ===== src/Net/TcpServer/Schedule.antt =====
-- Any schedule of new connections, closed ones and the tasks of the loops.
use wethands.Prelude.{
  ℕ, ◌+◌, ◌^◌, ◌<◌, ◌≡◌, refl, ap, sym, Bool, true, false, Option, none, some, List, [], ◌∷◌,
  get_elem?, if◌then◌else◌, Bool-cases, ◌⊎◌, inl, inr, Result, ok, fault, assert_failed, Never,
  Returns, Returns-map, Returns-elim, ◌>>=◌, arith,
}
use wethands.Prelude.Halting.{Halted, start_or_halt}
use wethands.Reactor.EventLoopThreadPool.{start, new_event_loop_thread_pool}
use wethands.Net.Acceptor.{Acceptor, listen}
use wethands.Net.Socket.{listen_socket}
use wethands.Net.TcpConnection.{TcpConnection, handle_close}
use wethands.Net.TcpServer.{
  TcpServer, Served, Task, establish, remove, destroy, Event, accepts, closes, shuts_down, runs,
  run_task, take_task, new_tcp_server, start_server, is_open, step, run, close_connection,
}
use wethands.Net.TcpServer.Stages.{Stage, opening, serving, leaving, ending, gone, StageAt-of_eq}
use wethands.Net.TcpServer.Table.{is_listed, names_of}
use wethands.Net.TcpServer.Queue.{
  is_establish, is_remove, is_destroy, total, Takes, take_task-Takes, loops_of,
}
use wethands.Net.TcpServer.Lifecycle.{
  object-found, IsConsistent, IsSettled, establish_connection-IsSettled,
  destroy_connection-IsSettled,
}
use wethands.Net.TcpServer.Operations.{
  move-IsConsistent, remove_connection_in_loop-IsSettled, close_connection-IsSettled,
  shutdown-IsSettled,
}
use wethands.Net.TcpServer.Accept.{new_connection-IsSettled}

-- How many connections a schedule brings.
abbrev pub arrivals : List Event → ℕ
arrivals [] = 0
arrivals (accepts peer ∷ es) = 1 + arrivals es
arrivals (closes i ∷ es) = arrivals es
arrivals (shuts_down i ∷ es) = arrivals es
arrivals (runs l ∷ es) = arrivals es

run_task-IsSettled :
    (budget l : ℕ) (task : Task) (s : TcpServer)
    → IsConsistent budget s ((l, task) ∷ s.pending)
    → Returns (run_task l task s) (IsSettled budget)
unfolding run_task
run_task-IsSettled budget l (establish i) s v = establish_connection-IsSettled budget l i s v
run_task-IsSettled budget l (remove i) s v = remove_connection_in_loop-IsSettled budget l i s v
run_task-IsSettled budget l (destroy i) s v = destroy_connection-IsSettled budget l i s v

-- The poller reports the end of a connection that was closed before and is still registered: the
-- assertion of `HandleClose` fails.
unfoldable pub IsHangup : TcpServer → Event → Type 0
IsHangup s (accepts peer) = Never
IsHangup s (closes i) =
    (o : Served) × (get_elem? s.objects i ≡ some o)
    × (is_open o.conn ≡ false)
    × (o.conn.socket_channel.registered_to_poller ≡ true)
    × (step s (closes i) ≡ fault assert_failed)
IsHangup s (shuts_down i) = Never
IsHangup s (runs l) = Never

handle_close-closed : (c : TcpConnection) → is_open c ≡ false → handle_close c ≡ fault assert_failed
unfolding is_open handle_close
handle_close-closed c down = rw down refl

close_connection-closed :
    (i : ℕ) (s : TcpServer) (o : Served)
    → get_elem? s.objects i ≡ some o
    → is_open o.conn ≡ false
    → close_connection i s ≡ fault assert_failed
unfolding close_connection
close_connection-closed i s o found down =
    rw (object-found s i o found, handle_close-closed o.conn down) refl

step-closes :
    (budget i : ℕ) (s : TcpServer)
    → IsSettled budget s
    → Returns (step s (closes i)) (IsSettled budget) ⊎ IsHangup s (closes i)
unfolding step IsHangup
step-closes budget i s v = go (get_elem? s.objects i) refl
  where
    at_end : Option Served → Result TcpServer
    at_end found = elim found [
      | none ↦ ok s
      | some o ↦ if o.conn.socket_channel.registered_to_poller then close_connection i s else ok s
    ]

    go :
        (found : Option Served)
        → get_elem? s.objects i ≡ found
        → Returns (at_end found) (IsSettled budget)
          ⊎ ((o : Served) × (found ≡ some o)
              × (is_open o.conn ≡ false)
              × (o.conn.socket_channel.registered_to_poller ≡ true)
              × (at_end found ≡ fault assert_failed))
    go none e = inl v
    go (some o) e = elim (Bool-cases o.conn.socket_channel.registered_to_poller) [
      | inr off ↦ inl (rw off v)
      | inl on ↦ elim (Bool-cases (is_open o.conn)) [
        | inl up ↦ inl (rw on (close_connection-IsSettled budget i s o e v up))
        | inr down ↦ inr (o, refl, down, on, rw on (close_connection-closed i s o e down))
      ]
    ]

step-shuts_down :
    (budget i : ℕ) (s : TcpServer)
    → IsSettled budget s
    → Returns (step s (shuts_down i)) (IsSettled budget)
unfolding step
step-shuts_down budget i s v =
    Returns-elim (IsSettled budget) (get_elem? s.objects i) _ _ (λ none_there. v)
      λ o found. shutdown-IsSettled budget i s o found v

step-runs :
    (budget l : ℕ) (s : TcpServer)
    → IsSettled budget s
    → Returns (step s (runs l)) (IsSettled budget)
unfolding step total
step-runs budget l s v =
    go (take_task l s.pending) (take_task-Takes (loops_of s.objects) l s.pending v.placed)
  where
    go :
        (found : Option (Task × List (ℕ × Task)))
        → Takes (loops_of s.objects) l s.pending found
        → Returns
            (elim found [
              | none ↦ ok s
              | some (task, rest) ↦ run_task l task (record s { pending = rest })
            ])
            (IsSettled budget)
    go none takes = v
    go (some (task, rest)) takes =
        run_task-IsSettled budget l task (record s { pending = rest })
          (move-IsConsistent budget s s.pending ((l, task) ∷ rest) rest v (takes.0, takes.1)
            (λ weight. sym (takes.2 weight)))

step-IsSettled :
    (e : Event) (es : List Event) (s : TcpServer)
    → IsSettled (arrivals (e ∷ es)) s
    → Returns (step s e) (IsSettled (arrivals es)) ⊎ IsHangup s e
unfolding step
step-IsSettled (accepts peer) es s v = inl (new_connection-IsSettled (arrivals es) s v peer)
step-IsSettled (closes i) es s v = step-closes (arrivals es) i s v
step-IsSettled (shuts_down i) es s v = inl (step-shuts_down (arrivals es) i s v)
step-IsSettled (runs l) es s v = inl (step-runs (arrivals es) l s v)

-- What holds of a server with events still to come.
abbrev pub IsServing : List Event → TcpServer → Type 0
IsServing es s = IsSettled (arrivals es) s

-- When no task is left, what the table says of a connection.
abbrev pub IsDrained : TcpServer → Type 0
IsDrained s =
    (i : ℕ) (o : Served)
    → get_elem? s.objects i ≡ some o
    → (is_listed i s.connections ≡ is_open o.conn)
      × (is_open o.conn ≡ false → o.conn.socket_channel.registered_to_poller ≡ false)

drained-Stage :
    (c : TcpConnection) (listed : Bool)
    → Stage c 0 0 0 listed
    → (listed ≡ is_open c) × (is_open c ≡ false → c.socket_channel.registered_to_poller ≡ false)
unfolding is_open
drained-Stage c listed (opening s h k m w) = absurd (omega arith)
drained-Stage c listed (serving s h k m w) = ground arith
drained-Stage c listed (leaving s h k m w) = absurd (omega arith)
drained-Stage c listed (ending s h k m w) = absurd (omega arith)
drained-Stage c listed (gone s g h k m w) = ground arith

IsSettled-IsDrained : (s : TcpServer) → IsSettled 0 s → s.pending ≡ [] → IsDrained s
unfolding total
IsSettled-IsDrained s v empty i o found =
    let at_stage =
      StageAt-of_eq (get_elem? s.objects i) (some o) _ 0 _ 0 _ 0 _ _ (sym found)
        (sym (ap (total (is_establish i)) empty)) (sym (ap (total (is_remove i)) empty))
        (sym (ap (total (is_destroy i)) empty)) refl (v.stages i) in
    drained-Stage o.conn (is_listed i s.connections) at_stage.1

started-IsSettled :
    (budget num_threads : ℕ) (has_callback : Bool) (acceptor : Acceptor)
    → budget < 2 ^ 31
    → Returns
        (start_server true true num_threads has_callback (new_tcp_server acceptor))
        (IsSettled budget)
unfolding start_server start listen listen_socket new_tcp_server new_event_loop_thread_pool names_of
    is_listed total
started-IsSettled budget num_threads has_callback acceptor small = record {
  ready = (refl, omega arith);
  few = omega arith;
  counted = refl;
  numbered = λ i name h. cc;
  entries = tt;
  placed = tt;
  stages = λ i. (refl, refl, refl, refl);
}

-- A server with any number of threads, whatever the schedule of less than 2^31 new connections, of
-- ends of connections that a poller reports, of shutdowns by a connection's own loop, and of tasks
-- that the loops run. Either no step faults, so that no assertion of a connection or of a loop fails
-- and each task runs in the loop of its connection: every connection is waiting to be established,
-- or served, or was closed and is removed and then destroyed once, and it is in the table just until
-- it is removed; and when no task is left, the table has exactly the connections that are open, and
-- all others are out of their pollers. Or all this holds up to a step, with the connections that are
-- still to come, in which a poller reports the end of a connection that was closed before and is
-- still registered, and there the assertion of HandleClose fails.
pub run_server-IsSettled :
    (es : List Event) (num_threads : ℕ) (has_callback : Bool) (acceptor : Acceptor)
    → arrivals es < 2 ^ 31
    → Returns
        (start_server true true num_threads has_callback (new_tcp_server acceptor) >>= λ s.
          run s es)
        (λ s. IsSettled 0 s × (s.pending ≡ [] → IsDrained s))
      ⊎ Halted run IsServing IsHangup
          (start_server true true num_threads has_callback (new_tcp_server acceptor))
          es
unfolding run
run_server-IsSettled es num_threads has_callback acceptor small =
    elim (start_or_halt step run IsServing IsHangup (λ s. refl) (λ s e es. refl) step-IsSettled
      (start_server true true num_threads has_callback (new_tcp_server acceptor)) es
      (started-IsSettled (arrivals es) num_threads has_callback acceptor small)) [
        | inr halted ↦ inr halted
        | inl ends ↦
            inl (Returns-map (IsSettled 0) _ _ ends (λ s' v'. (v', IsSettled-IsDrained s' v')))
      ]
