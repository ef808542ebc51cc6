-- ===== src/Net/TcpServer/Stages.antt =====
-- The stages of a connection of a server between its making and its end, and its own operations.
use wethands.Prelude.{ℕ, ◌+◌, ◌≡◌, refl, ap, Bool, true, false, Option, none, some, Returns, arith}
use wethands.Reactor.Channel.{disable_all, remove_from_poller, register_to_poller}
use wethands.Net.TcpConnection.{
  TcpConnection, connecting, disconnected, is_state, note, connection_established,
  connection_destroyed, handle_close, shutdown, shutdown_in_loop,
}
use wethands.Net.TcpServer.{Served, is_open}

-- The two callbacks that the server and its user set.
abbrev pub HasCallbacks : TcpConnection → Type 0
HasCallbacks c = (c.has_connection_callback ≡ true) × (c.has_close_callback ≡ true)

-- The stages of a connection: it waits to be established in its loop; it is served; it is closed
-- and the server's loop shall take it out of the table; its own loop shall destroy it; it is gone.
-- `e`, `r` and `d` count its tasks of these three kinds, `listed` is whether it is in the table.
pub data Stage (c : TcpConnection) (e r d : ℕ) (listed : Bool) : Type 0 where
  opening : c.state ≡ connecting → e ≡ 1 → r ≡ 0 → d ≡ 0 → listed ≡ true → Stage c e r d listed
  serving : is_open c ≡ true → e ≡ 0 → r ≡ 0 → d ≡ 0 → listed ≡ true → Stage c e r d listed
  leaving : c.state ≡ disconnected → e ≡ 0 → r ≡ 1 → d ≡ 0 → listed ≡ true → Stage c e r d listed
  ending : c.state ≡ disconnected → e ≡ 0 → r ≡ 0 → d ≡ 1 → listed ≡ false → Stage c e r d listed
  gone :
      c.state ≡ disconnected
      → c.socket_channel.registered_to_poller ≡ false
      → e ≡ 0
      → r ≡ 0
      → d ≡ 0
      → listed ≡ false
      → Stage c e r d listed

-- The callbacks that the server sets are set, and the connection is at one of its stages; one that
-- was not made has no task and no entry.
abbrev pub StageAt : Option Served → ℕ → ℕ → ℕ → Bool → Type 0
StageAt none e r d listed = (e ≡ 0) × (r ≡ 0) × (d ≡ 0) × (listed ≡ false)
StageAt (some o) e r d listed = HasCallbacks o.conn × Stage o.conn e r d listed

-- A stage is read off the connection, the counts and the entry alone.
pub StageAt-of_eq :
    (o o' : Option Served) (e e' r r' d d' : ℕ) (listed listed' : Bool)
    → o' ≡ o
    → e' ≡ e
    → r' ≡ r
    → d' ≡ d
    → listed' ≡ listed
    → StageAt o e r d listed
    → StageAt o' e' r' d' listed'
StageAt-of_eq o o' e e' r r' d d' listed listed' p q u w z stage = rw (p, q, u, w, z) stage

pub connection_established_lem :
    (c : TcpConnection)
    → HasCallbacks c
    → c.state ≡ connecting
    → Returns (connection_established c) (λ c'. HasCallbacks c' × (is_open c' ≡ true))
unfolding connection_established note is_open
connection_established_lem c h e = rw (ap (λ t. is_state t connecting) e, h.0) ((refl, h.1), refl)

pub connection_destroyed_lem :
    (c : TcpConnection)
    → HasCallbacks c
    → c.state ≡ disconnected
    → Returns (connection_destroyed c) (λ c'.
      HasCallbacks c'
      × (c'.state ≡ disconnected)
      × (c'.socket_channel.registered_to_poller ≡ false))
unfolding connection_destroyed note remove_from_poller disable_all register_to_poller
connection_destroyed_lem c h e =
    rw (ap (λ t. is_state t disconnected) e, h.0) ((refl, h.1), e, refl)

pub handle_close_lem :
    (c : TcpConnection)
    → HasCallbacks c
    → is_open c ≡ true
    → Returns (handle_close c) (λ c'. HasCallbacks c' × (c'.state ≡ disconnected))
unfolding handle_close note is_open
handle_close_lem c h e = rw (e, h.1) ((h.0, refl), refl)

pub shutdown_lem :
    (c : TcpConnection)
    → HasCallbacks c
    → HasCallbacks (shutdown true c)
      × ((is_open c ≡ true) → is_open (shutdown true c) ≡ true)
      × ((is_open c ≡ false) → shutdown true c ≡ c)
unfolding shutdown shutdown_in_loop is_open
shutdown_lem c h = (ground arith, ground arith, ground arith)

-- A task of the kind `establish` is there only at the first stage, and so on.
pub establish-Stage :
    (c : TcpConnection) (e r d : ℕ) (listed : Bool)
    → Stage c (1 + e) r d listed
    → (c.state ≡ connecting) × (e ≡ 0) × (r ≡ 0) × (d ≡ 0) × (listed ≡ true)
establish-Stage c e r d listed (opening s h k m w) = (s, omega arith, k, m, w)
establish-Stage c e r d listed (serving s h k m w) = absurd (omega arith)
establish-Stage c e r d listed (leaving s h k m w) = absurd (omega arith)
establish-Stage c e r d listed (ending s h k m w) = absurd (omega arith)
establish-Stage c e r d listed (gone s g h k m w) = absurd (omega arith)

pub remove-Stage :
    (c : TcpConnection) (e r d : ℕ) (listed : Bool)
    → Stage c e (1 + r) d listed
    → (c.state ≡ disconnected) × (e ≡ 0) × (r ≡ 0) × (d ≡ 0)
remove-Stage c e r d listed (opening s h k m w) = absurd (omega arith)
remove-Stage c e r d listed (serving s h k m w) = absurd (omega arith)
remove-Stage c e r d listed (leaving s h k m w) = (s, h, omega arith, m)
remove-Stage c e r d listed (ending s h k m w) = absurd (omega arith)
remove-Stage c e r d listed (gone s g h k m w) = absurd (omega arith)

pub destroy-Stage :
    (c : TcpConnection) (e r d : ℕ) (listed : Bool)
    → Stage c e r (1 + d) listed
    → (c.state ≡ disconnected) × (e ≡ 0) × (r ≡ 0) × (d ≡ 0) × (listed ≡ false)
destroy-Stage c e r d listed (opening s h k m w) = absurd (omega arith)
destroy-Stage c e r d listed (serving s h k m w) = absurd (omega arith)
destroy-Stage c e r d listed (leaving s h k m w) = absurd (omega arith)
destroy-Stage c e r d listed (ending s h k m w) = (s, h, k, omega arith, w)
destroy-Stage c e r d listed (gone s g h k m w) = absurd (omega arith)
