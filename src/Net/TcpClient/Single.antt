-- ===== src/Net/TcpClient/Single.antt =====
-- A client has one connection at a time, and ends each one.
use mathlib.Core.Path.{subst}
use wethands.Prelude.{
  ℕ, ◌+◌, ◌<◌, ◌≡◌, refl, sym, ◌∙◌, Bool, true, false, none, some, List, [], ◌∷◌, length,
  length-set, length-append, get_elem?, get_elem?-of_lt, get_elem?-set_self, set, if◌then◌else◌, ok,
  Returns, Returns-bind, Returns-if, Returns-both, ◌>>=◌, ==_iff, arith,
}
use wethands.Reactor.Channel.{
  new_channel, enable_writing, disable_writing, register_to_poller, remove_from_poller,
}
use wethands.Net.TcpConnection.{TcpConnection, connecting, disconnected}
use wethands.Net.TcpServer.{is_open, connection_name}
use wethands.Net.TcpServer.Stages.{
  HasCallbacks, handle_close_lem, connection_destroyed_lem, connection_established_lem,
}
use wethands.Net.TcpServer.Accept.{new_tcp_connection_lem}
use wethands.Net.Connector
use wethands.Net.Connector.{
  Connector, ConnectResult, new_connector, start_in_loop, restart, stop_now, timer_fires,
}
use wethands.Net.Connector.Safety
use wethands.Net.Connector.Safety.{
  resting, waiting, retrying, start_rest, restart_lem, stop_lem, writable_lem,
  new_connector-IsValid,
}
use wethands.Net.TcpClient.{
  TcpClient, object, stop, new_connection, handle_close_of, close_connection, connector_writable,
}
use wethands.Net.TcpClient.Ended.{
  IsAt, AreEnded, set-OthersEnded, set-AreEnded, AreEnded-others, append-AreEnded,
}

-- The connector neither waits for its channel nor for a timer.
abbrev pub IsIdle : Connector → Type 0
IsIdle c = (c.connecting ≡ false) × (c.timers ≡ [])

pub record IsSingle (c : TcpClient) : Type 0 where
  pub valid : Safety.IsValid c.connector
  pub callback : c.has_connection_callback ≡ true
  pub idle : (i : ℕ) → c.connection ≡ some i → IsIdle c.connector × (i < length c.objects)
  pub ended : AreEnded c.connection c.objects

IsIdle-handle_write :
    (c : Connector)
    → Safety.IsValid c
    → c.connecting ≡ true
    → Returns (Connector.handle_write false false true c) IsIdle
unfolding Connector.handle_write Connector.unregister_for_connecting Connector.channel_of
    new_channel enable_writing disable_writing register_to_poller remove_from_poller
IsIdle-handle_write c (resting socket channel delay stop idx n free d) h = cc
IsIdle-handle_write c (waiting delay stop idx n d) h = (refl, refl)
IsIdle-handle_write c (retrying socket channel delay after stop idx n free d d') h = cc

-- The connector of a client with a connection rests, and goes on to rest when it is stopped.
pub stop-IsIdle : (c : Connector) → Safety.IsValid c → IsIdle c → Returns (stop_now c) IsIdle
unfolding stop_now Connector.stop_in_loop Connector.leave_connecting Connector.cancel_timer
stop-IsIdle c (resting socket channel delay stop idx n free d) h = (refl, refl)
stop-IsIdle c (waiting delay stop idx n d) h = cc h.0
stop-IsIdle c (retrying socket channel delay after stop idx n free d d') h = cc h.1

pub object-found :
    (c : TcpClient) (i : ℕ) (o : List ℕ × TcpConnection)
    → get_elem? c.objects i ≡ some o
    → object c i ≡ ok o
unfolding object
object-found c i o h = rw (h, object)

-- The connector goes on without a connection.
pub connector-IsSingle :
    (c : TcpClient) (connector : Connector)
    → IsSingle c
    → c.connection ≡ none
    → Safety.IsValid connector
    → IsSingle (record c { connector = connector })
connector-IsSingle c connector v gone_ valid = record {
  valid = valid;
  callback = v.callback;
  idle = λ i h. cc (sym gone_ ∙ h);
  ended = v.ended;
}

writable-IsValid :
    (c : Connector) (error self : Bool)
    → Safety.IsValid c
    → c.connecting ≡ true
    → Returns (Connector.handle_write error self true c) Safety.IsValid
unfolding Connector.step
writable-IsValid c error self v waits = simp waits at (writable_lem c error self true v)

module _ (server : List ℕ) where
  new_connection-IsSingle :
      (c : TcpClient)
      → IsSingle c
      → c.connection ≡ none
      → IsIdle c.connector
      → Returns (new_connection server c) IsSingle
  unfolding new_connection
  new_connection-IsSingle c v alone idle =
      Returns-bind (λ conn. HasCallbacks conn × (conn.state ≡ connecting)) _ _ _
        (new_tcp_connection_lem c.has_write_complete_callback c.has_message_callback false)
        λ made (callbacks, state).
          let conn : TcpConnection = record made {
            has_connection_callback = c.has_connection_callback;
          } in
          Returns-bind (λ conn'. HasCallbacks conn' × (is_open conn' ≡ true)) _ _ _
            (connection_established_lem conn (v.callback, callbacks.1) state)
            λ conn' (callbacks', up).
              let o : List ℕ × TcpConnection = (connection_name server (c.count + 1), conn') in
              record {
                valid = v.valid;
                callback = v.callback;
                idle = λ i e. (idle, ground (arith, length-append c.objects (o ∷ [])));
                ended =
                    append-AreEnded c.objects o (subst (λ k. AreEnded k c.objects) alone v.ended)
                      callbacks' up;
              }

  -- What the write event of the connector leads to.
  pub connector_writable-IsSingle :
      (c : TcpClient) (error self : Bool)
      → IsSingle c
      → c.connection ≡ none
      → c.connector.connecting ≡ true
      → Returns (connector_writable server error self c) IsSingle
  unfolding connector_writable
  connector_writable-IsSingle c true self v alone waits =
      Returns-bind Safety.IsValid _ _ _ (writable-IsValid c.connector true self v.valid waits)
        (λ connector valid. connector-IsSingle c connector v alone valid)
  connector_writable-IsSingle c false true v alone waits =
      Returns-bind Safety.IsValid _ _ _ (writable-IsValid c.connector false true v.valid waits)
        (λ connector valid. connector-IsSingle c connector v alone valid)
  connector_writable-IsSingle c false false v alone waits =
      Returns-bind (λ connector. Safety.IsValid connector × IsIdle connector) _ _ _
        (Returns-both Safety.IsValid IsIdle _
          (writable-IsValid c.connector false false v.valid waits)
          (IsIdle-handle_write c.connector v.valid waits))
        (λ connector (valid, idle).
          new_connection-IsSingle (record c { connector = connector })
            (connector-IsSingle c connector v alone valid) alone idle)

  -- A connection that is dropped leaves the client with none, and the connector may start again.
  drop-IsSingle :
      (c : TcpClient) (answer : ConnectResult)
      → IsSingle c
      → c.connection ≡ none
      → Returns
          (if c.retry
            then (restart answer c.connector >>= λ connector.
                ok (record c { connector = connector }))
            else ok c)
          IsSingle
  drop-IsSingle c answer v alone =
      Returns-if IsSingle c.retry _ (ok c)
        (λ again.
          Returns-bind Safety.IsValid IsSingle (restart answer c.connector) _
            (restart_lem answer c.connector v.valid)
            (λ connector valid. connector-IsSingle c connector v alone valid))
        (λ enough. v)

  pub close_connection-IsSingle :
      (c : TcpClient) (answer : ConnectResult) (i : ℕ)
      → IsSingle c
      → c.connection ≡ some i
      → Returns (close_connection answer i c) IsSingle
  unfolding close_connection handle_close_of
  close_connection-IsSingle c answer i v has =
      let (idle, lt) = v.idle i has in
      let (o, found) = get_elem?-of_lt c.objects i lt in
      let (callbacks, at_i) = subst (λ k. AreEnded k c.objects) has v.ended i o found in
      rw (object-found c i o found) (
        Returns-bind (λ closed. HasCallbacks closed × (closed.state ≡ disconnected)) _ _ _
          (handle_close_lem o.1 callbacks (subst (λ b. IsAt b o.1) ((==_iff i i).1 refl) at_i))
          λ closed (callbacks', down).
            let objects = set c.objects i (o.0, closed) in
            rw
              (object-found (record c { objects = objects }) i (o.0, closed)
                (get_elem?-set_self c.objects i (o.0, closed) lt))
              (Returns-bind
                (λ gone_.
                  HasCallbacks gone_
                  × (gone_.state ≡ disconnected)
                  × (gone_.socket_channel.registered_to_poller ≡ false))
                _ _ _ (connection_destroyed_lem closed callbacks' down)
                λ gone_ (callbacks'', down', out).
                  drop-IsSingle
                    (record c { connection = none; objects = set objects i (o.0, gone_) }) answer
                    (record {
                      valid = v.valid;
                      callback = v.callback;
                      idle = λ j e. cc;
                      ended =
                          set-AreEnded none objects i (o.0, gone_)
                            (set-OthersEnded none c.objects i (o.0, closed)
                              (AreEnded-others i c.objects
                                (subst (λ k. AreEnded k c.objects) has v.ended)))
                            (omega (arith, length-set c.objects i (o.0, closed))) callbacks''
                            (down', out);
                    })
                    refl))
