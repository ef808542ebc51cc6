-- ===== src/Net/TcpServer/Accept.antt =====
-- A new connection of a server is at its first stage.
use mathlib.Core.Path.{subst}
use native.Mathlib.Decide.{ℕ_discrete}
use wethands.Prelude.{
  ℕ, ◌+◌, ◌<◌, ◌≡◌, refl, ap, sym, ◌∙◌, Bool, true, false, ◌||◌, none, some, List, [], ◌∷◌, ◌++◌,
  ◌==◌, length, length-append, get_elem?, get_elem?-of_lt, get_elem?-length, get_elem?-append_ne,
  get_elem?-append_end, Bool-cases, inl, inr, Returns, Returns-bind, arith,
}
use wethands.Reactor.EventLoopThreadPool.{EventLoopThreadPool, next_loop, take_loop}
use wethands.Net.Buffer.{new_buffer, readable_bytes, writable_bytes, prependable_bytes}
use wethands.Net.TcpConnection.{TcpConnection, connecting, new_tcp_connection}
use wethands.Net.TcpServer.{
  TcpServer, Served, establish, establish_connection, new_connection, connection_name, assign,
}
use wethands.Net.TcpServer.Stages.{HasCallbacks, opening, StageAt, StageAt-of_eq}
use wethands.Net.TcpServer.Names.{number_of_name, number_of_name-connection_name}
use wethands.Net.TcpServer.Table.{
  is_listed, names_of, names_of-append, length-names_of, AreNumbered, AreEntries, is_listed-assign,
  assign-AreEntries, append-AreNumbered,
}
use wethands.Net.TcpServer.Queue.{
  is_establish, is_remove, is_destroy, total, loops_of, length-loops_of, loops_of-append, ArePlaced,
  append-ArePlaced,
}
use wethands.Net.TcpServer.Lifecycle.{
  StageOf, IsReady, IsConsistent, IsSettled, weight_self, weight_ne, establish_connection-IsSettled,
}
use wethands.Net.TcpServer.Operations.{run_in_loop-IsSettled}

pub new_tcp_connection_lem :
    (write_complete message high_water : Bool)
    → Returns
        (new_tcp_connection write_complete message high_water)
        (λ c. HasCallbacks c × (c.state ≡ connecting))
unfolding new_tcp_connection new_buffer readable_bytes writable_bytes prependable_bytes
new_tcp_connection_lem write_complete message high_water = ((refl, refl), refl)

take_loop-IsReady :
    (p : EventLoopThreadPool ℕ) (i : ℕ)
    → p.started ≡ true
    → i < length p.loops
    → Returns (take_loop p i) (λ r. IsReady r.1)
unfolding take_loop
take_loop-IsReady p i started h =
    let (x, found) = get_elem?-of_lt p.loops i h in rw (take_loop, found) (started, omega arith)

next_loop-IsReady :
    (p : EventLoopThreadPool ℕ) → IsReady p → Returns (next_loop true p) (λ r. IsReady r.1)
unfolding next_loop
next_loop-IsReady p h = simp h.0 (elim (Bool-cases (length p.loops == 0)) [
  | inl alone ↦ rw alone (h.0, h.1)
  | inr many ↦ rw many (take_loop-IsReady p _ h.0 (ground arith))
])

-- The server after its tables have the new connection.
abbrev entered : TcpServer → EventLoopThreadPool ℕ → List ℕ → ℕ → TcpConnection → TcpServer
entered s pool peer io_loop conn = record s {
  thread_pool = pool;
  conn_count = s.conn_count + 1;
  connections = assign (connection_name peer (s.conn_count + 1)) (length s.objects) s.connections;
  objects =
      s.objects
      ++ (record { name = connection_name peer (s.conn_count + 1); io_loop = io_loop; conn = conn })
        ∷ [];
}

module _ (budget : ℕ) (s : TcpServer) (v : IsSettled (1 + budget) s) (peer : List ℕ) where
  fresh :
      number_of_name (connection_name peer (s.conn_count + 1))
      ≡ some (length (names_of s.objects) + 1)
  fresh =
      number_of_name-connection_name peer (s.conn_count + 1) (omega (arith, v.few))
      ∙ ap (λ k. some (k + 1)) (v.counted ∙ sym (length-names_of s.objects))

  module _ (pool : EventLoopThreadPool ℕ) (ready : IsReady pool) (io_loop : ℕ)
      (conn : TcpConnection) (callbacks : HasCallbacks conn) (state : conn.state ≡ connecting) where
    -- The entry for the new connection.
    o : Served
    o = record { name = connection_name peer (s.conn_count + 1); io_loop = io_loop; conn = conn }

    listed :
        (j : ℕ)
        → is_listed j (entered s pool peer io_loop conn).connections
          ≡ (is_listed j s.connections || (j == length s.objects))
    listed j =
        is_listed-assign (names_of s.objects) v.numbered _ fresh (length s.objects) j s.connections
          v.entries

    -- The place of the new connection had none before.
    new_stage :
        StageAt
          (some o)
          (1 + total (is_establish (length s.objects)) s.pending)
          (total (is_remove (length s.objects)) s.pending)
          (total (is_destroy (length s.objects)) s.pending)
          (is_listed (length s.objects) s.connections || (length s.objects == length s.objects))
    unfolding o
    new_stage =
        let empty =
          StageAt-of_eq (get_elem? s.objects (length s.objects)) none _ _ _ _ _ _ _ _
            (sym (get_elem?-length s.objects)) refl refl refl refl (v.stages (length s.objects)) in
        (callbacks, opening state (omega (arith, empty.0)) empty.1 empty.2 (ground arith))

    stages :
        (j : ℕ)
        → StageOf
            (entered s pool peer io_loop conn)
            ((io_loop, establish (length s.objects)) ∷ s.pending)
            j
    unfolding total is_establish is_remove is_destroy o
    stages j = elim (ℕ_discrete j (length s.objects)) [
      | yes e ↦
          subst
            (λ k.
              StageOf (entered s pool peer io_loop conn)
                ((io_loop, establish (length s.objects)) ∷ s.pending) k)
            (sym e)
            (StageAt-of_eq (some o) (get_elem? (s.objects ++ o ∷ []) (length s.objects)) _ _ _ _ _ _
              _ _ (get_elem?-append_end s.objects o (length s.objects) refl)
              (ap (λ k. k + total (is_establish (length s.objects)) s.pending)
                (weight_self (length s.objects)))
              (omega arith) (omega arith) (listed (length s.objects)) new_stage)
      | no ne ↦
          StageAt-of_eq (get_elem? s.objects j) (get_elem? (s.objects ++ o ∷ []) j) _ _ _ _ _ _ _ _
            (get_elem?-append_ne s.objects o j ne)
            (ap (λ k. k + total (is_establish j) s.pending) (weight_ne (length s.objects) j ne)
              ∙ omega arith)
            (omega arith) (omega arith) (listed j ∙ ground arith) (v.stages j)
    ]

    entered-IsConsistent :
        IsConsistent budget
          (entered s pool peer io_loop conn)
          ((io_loop, establish (length s.objects)) ∷ s.pending)
    unfolding o
    entered-IsConsistent = record {
      ready = ready;
      few = omega (arith, v.few);
      counted = omega (arith, v.counted, length-append s.objects (o ∷ []));
      numbered =
          subst AreNumbered (sym (names_of-append s.objects o))
            (append-AreNumbered (names_of s.objects) v.numbered o.name fresh);
      entries =
          subst (λ l. AreEntries l (entered s pool peer io_loop conn).connections)
            (sym (names_of-append s.objects o))
            (subst
              (λ n. AreEntries (names_of s.objects ++ o.name ∷ []) (assign o.name n s.connections))
              (length-names_of s.objects)
              (assign-AreEntries (names_of s.objects) v.numbered o.name fresh s.connections
                v.entries));
      placed =
          subst (λ l. ArePlaced l ((io_loop, establish (length s.objects)) ∷ s.pending))
            (sym (loops_of-append s.objects o))
            (
              get_elem?-append_end (loops_of s.objects) io_loop (length s.objects)
                  (sym (length-loops_of s.objects)),
              append-ArePlaced (loops_of s.objects) io_loop s.pending v.placed,
            );
      stages = stages;
    }

  -- A connection that is accepted is at its first stage, or is served at once.
  pub new_connection-IsSettled : Returns (new_connection true peer s) (IsSettled budget)
  unfolding new_connection
  new_connection-IsSettled =
      Returns-bind (λ r. IsReady r.1) _ (next_loop true s.thread_pool) _
        (next_loop-IsReady s.thread_pool v.ready)
        λ (io_loop, pool) ready.
          Returns-bind (λ c. HasCallbacks c × (c.state ≡ connecting)) _
            (new_tcp_connection s.has_write_complete_callback true false) _
            (new_tcp_connection_lem s.has_write_complete_callback true false)
            λ conn (callbacks, state).
              run_in_loop-IsSettled budget 0 io_loop (establish (length s.objects))
                (establish_connection 0 (length s.objects)) (entered s pool peer io_loop conn)
                (entered-IsConsistent pool ready io_loop conn callbacks state)
                λ e.
                  establish_connection-IsSettled budget 0 (length s.objects)
                    (entered s pool peer io_loop conn)
                    (subst
                      (λ k.
                        IsConsistent budget (entered s pool peer io_loop conn)
                          ((k, establish (length s.objects)) ∷ s.pending))
                      (sym e) (entered-IsConsistent pool ready io_loop conn callbacks state))
