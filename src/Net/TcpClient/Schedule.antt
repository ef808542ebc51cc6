-- ===== src/Net/TcpClient/Schedule.antt =====
-- Any schedule of what can happen to a client that connects.
use mathlib.Core.Path.{subst}
use wethands.Prelude.{
  ℕ, ◌≡◌, refl, ap, sym, ◌∙◌, Bool, true, false, none, some, List, [], ◌∷◌, length-set,
  get_elem?-of_lt, set, inl, inr, ◌⊎◌, Never, Bool-cases, aborted, ok, fault, null_pointer, Returns,
  Returns-bind, Returns-ok, Returns-if, Option-cases, Returns-both, Returns-elim, ◌>>=◌, ==_iff,
  arith,
}
use wethands.Prelude.Halting.{Halted, start_or_halt}
use wethands.Net.TcpConnection.{shutdown}
use wethands.Net.TcpServer.Stages.{shutdown_lem}
use wethands.Net.Connector
use wethands.Net.Connector.{
  Connector, ConnectResult, new_connector, start_in_loop, restart, stop_now, timer_fires,
}
use wethands.Net.Connector.Safety
use wethands.Net.Connector.Safety.{
  resting, waiting, retrying, start_rest, restart_lem, stop_lem, stop_aborts, fires_lem,
  new_connector-IsValid,
}
use wethands.Net.TcpClient.{
  TcpClient, new_tcp_client, connect, disconnect, stop, Event, writable, fires, closes, disconnects,
  stops, step, run,
}
use wethands.Net.TcpClient.Ended.{is_current, IsAt, set-AreEnded}
use wethands.Net.TcpClient.Single.{
  IsIdle, IsSingle, object-found, connector-IsSingle, connector_writable-IsSingle,
  close_connection-IsSingle, stop-IsIdle,
}

module _ (server : List ℕ) where
  -- While the connector is at work, the client has no connection.
  alone_while_waiting :
      (c : TcpClient) → IsSingle c → c.connector.connecting ≡ true → c.connection ≡ none
  alone_while_waiting c v waits = elim (Option-cases c.connection) [
    | inl alone ↦ alone
    | inr (i, has) ↦ cc ((v.idle i has).0.0)
  ]

  alone_while_retrying :
      (c : TcpClient)
      → IsSingle c
      → (t : ℕ × ℕ) (ts : List (ℕ × ℕ)) → c.connector.timers ≡ t ∷ ts
      → c.connection ≡ none
  alone_while_retrying c v t ts waits = elim (Option-cases c.connection) [
    | inl alone ↦ alone
    | inr (i, has) ↦ cc ((v.idle i has).0.1)
  ]

  stop-IsSingle :
      (c : TcpClient) → IsSingle c → c.connector.connecting ≡ false → Returns (stop c) IsSingle
  unfolding stop
  stop-IsSingle c v rests = elim (Option-cases c.connection) [
    | inl alone ↦
        Returns-bind Safety.IsValid IsSingle (stop_now c.connector) _
          (stop_lem c.connector v.valid rests)
          (λ connector valid. connector-IsSingle c connector v alone valid)
    | inr (i, has) ↦
        let (idle, lt) = v.idle i has in
        Returns-bind (λ connector. Safety.IsValid connector × IsIdle connector) IsSingle
          (stop_now c.connector) _
          (Returns-both Safety.IsValid IsIdle _ (stop_lem c.connector v.valid rests)
            (stop-IsIdle c.connector v.valid idle))
          (λ connector (valid, idle'). record {
            valid = valid;
            callback = v.callback;
            idle = λ j e. (idle', (v.idle j e).1);
            ended = v.ended;
          })
  ]

  -- A stop while the connector waits for its channel.
  unfoldable pub IsHazard : TcpClient → Event → Type 0
  IsHazard c (writable error self) = Never
  IsHazard c (fires answer) = Never
  IsHazard c (closes answer) = Never
  IsHazard c disconnects = Never
  IsHazard c stops = (c.connector.connecting ≡ true) × (step server c stops ≡ fault aborted)

  stop-aborts :
      (c : TcpClient) → IsSingle c → c.connector.connecting ≡ true → stop c ≡ fault aborted
  unfolding stop
  stop-aborts c v waits = rw (stop_aborts c.connector v.valid waits) refl

  disconnect-IsSingle :
      (c : TcpClient) (i : ℕ) → IsSingle c → c.connection ≡ some i → Returns (disconnect c) IsSingle
  unfolding disconnect
  disconnect-IsSingle c i v has =
      let (idle, lt) = v.idle i has in
      let (o, found) = get_elem?-of_lt c.objects i lt in
      let (callbacks, at_i) = v.ended i o found in
      let (callbacks', stays, same) = shutdown_lem o.1 callbacks in
      Returns-ok IsSingle (disconnect c)
        (record c { objects = set c.objects i (o.0, shutdown true o.1) })
        (ground (arith, has, object-found c i o found))
        (record {
          valid = v.valid;
          callback = v.callback;
          idle = λ j e. (
            (v.idle j e).0,
            omega (arith, (v.idle j e).1, length-set c.objects i (o.0, shutdown true o.1)),
          );
          ended =
              set-AreEnded c.connection c.objects i (o.0, shutdown true o.1) (λ j p ne. v.ended j p)
                lt callbacks'
                (subst (λ b. IsAt b (shutdown true o.1)) (sym (current_self i has))
                  (stays (subst (λ b. IsAt b o.1) (current_self i has) at_i)));
        })
    where
      current_self : (k : ℕ) → c.connection ≡ some k → is_current c.connection k ≡ true
      current_self k e = ap (λ m. is_current m k) e ∙ (==_iff k k).1 refl

  step-IsSingle :
      (c : TcpClient) (e : Event) → IsSingle c → Returns (step server c e) IsSingle ⊎ IsHazard c e
  unfolding step Connector.step IsHazard
  step-IsSingle c (writable error self) v = inl (
      Returns-if IsSingle c.connector.connecting _ (ok c)
        (λ waits.
          connector_writable-IsSingle server c error self v (alone_while_waiting c v waits) waits)
        (λ rests. v))
  step-IsSingle c (fires answer) v =
      inl (go c.connector.timers refl (fires_lem c.connector answer v.valid))
    where
      go :
          (timers : List (ℕ × ℕ))
          → c.connector.timers ≡ timers
          → Returns
              (elim timers [ [] ↦ ok c.connector | t ∷ ts ↦ timer_fires answer t.0 c.connector ])
              Safety.IsValid
          → Returns
              (elim timers [
                | [] ↦ ok c
                | t ∷ ts ↦ timer_fires answer t.0 c.connector >>= λ connector.
                    ok (record c { connector = connector })
              ])
              IsSingle
      go [] e valid = v
      go (t ∷ ts) e valid =
          Returns-bind Safety.IsValid IsSingle (timer_fires answer t.0 c.connector) _ valid
            (λ connector valid'.
              connector-IsSingle c connector v (alone_while_retrying c v t ts e) valid')
  step-IsSingle c (closes answer) v = inl (
      Returns-elim IsSingle c.connection _ _ (λ alone. v)
        λ i has. close_connection-IsSingle server c answer i v has)
  step-IsSingle c disconnects v =
      inl
        (Returns-elim IsSingle c.connection _ _ (λ alone. v) λ i has. disconnect-IsSingle c i v has)
  step-IsSingle c stops v = elim (Bool-cases c.connector.connecting) [
    | inl waits ↦ inr (waits, stop-aborts c v waits)
    | inr rests ↦ inl (stop-IsSingle c v rests)
  ]

  started-IsSingle :
      (answer : ConnectResult) (retry message_callback write_complete_callback : Bool)
      → Returns
          (connect answer (new_tcp_client retry true message_callback write_complete_callback))
          IsSingle
  unfolding connect new_tcp_client new_connector
  started-IsSingle answer retry message_callback write_complete_callback =
      Returns-bind Safety.IsValid IsSingle _ _
        (start_rest answer false none 1 false 0 0 (unfold Connector.is_unregistered in refl)
          (omega arith))
        (λ connector valid. record {
          valid = valid;
          callback = refl;
          idle = λ i e. cc;
          ended = λ i o e. cc;
        })

  -- A client with a connection callback that connects, under any schedule of answers of the system,
  -- write events and timers of its connector, ends of its connection, disconnects while there is a
  -- connection, and stops of the connector. Either no step faults: the connector stays valid and is
  -- at rest while the client has a connection, which is open, and every other connection that was
  -- made is closed and out of the poller. Or all this holds up to a stop while the connector waits
  -- for its channel, which aborts at the epoll_ctl on the closed socket.
  pub run_client-IsSingle :
      (answer : ConnectResult) (retry message_callback write_complete_callback : Bool)
      (es : List Event)
      → Returns
          (connect answer (new_tcp_client retry true message_callback write_complete_callback)
            >>= λ c. run server c es)
          IsSingle
        ⊎ Halted
            (run server)
            (λ later. IsSingle)
            IsHazard
            (connect answer (new_tcp_client retry true message_callback write_complete_callback))
            es
  unfolding run
  run_client-IsSingle answer retry message_callback write_complete_callback es =
      start_or_halt (step server) (run server) (λ later. IsSingle) IsHazard (λ c. refl)
        (λ c e later. refl) (λ e later c. step-IsSingle c e)
        (connect answer (new_tcp_client retry true message_callback write_complete_callback)) es
        (started-IsSingle answer retry message_callback write_complete_callback)

-- `Disconnect` of a client with no connection uses the null pointer.
pub disconnect-none : (c : TcpClient) → c.connection ≡ none → disconnect c ≡ fault null_pointer
unfolding disconnect
disconnect-none c e = rw (disconnect, e)
