-- ===== src/Net/TcpServer/Lifecycle.antt =====
-- Where each connection of a server stands between its making and its end.
use mathlib.Core.Path.{subst}
use native.Mathlib.Decide.{ℕ_discrete}
use wethands.Prelude.{
  ℕ, ◌+◌, ◌^◌, ◌≤◌, ◌<◌, ◌≡◌, ◌≢◌, refl, sym, ◌∙◌, true, false, some, List, ◌∷◌, ◌==◌, length,
  length-set, get_elem?, get_elem?-some_lt, get_elem?-set_self, get_elem?-set_ne, set,
  if◌then◌else◌, ok, Returns, Returns-bind, ==_iff, arith,
}
use wethands.Reactor.EventLoopThreadPool.{EventLoopThreadPool}
use wethands.Net.TcpConnection.{TcpConnection, disconnected}
use wethands.Net.TcpServer.{
  TcpServer, Served, Task, establish, destroy, object, put_conn, establish_connection,
  destroy_connection, is_open,
}
use wethands.Net.TcpServer.Stages.{
  HasCallbacks, Stage, serving, gone, StageAt, StageAt-of_eq, connection_established_lem,
  connection_destroyed_lem, establish-Stage, destroy-Stage,
}
use wethands.Net.TcpServer.Table.{is_listed, names_of, names_of-set, AreNumbered, AreEntries}
use wethands.Net.TcpServer.Queue.{
  is_establish, is_remove, is_destroy, total, loops_of, get_elem?-loops_of-some, loops_of-set,
  ArePlaced,
}

abbrev pub StageOf : TcpServer → List (ℕ × Task) → ℕ → Type 0
StageOf s tasks i =
    StageAt (get_elem? s.objects i) (total (is_establish i) tasks) (total (is_remove i) tasks)
      (total (is_destroy i) tasks) (is_listed i s.connections)

-- `NextLoop` has a loop to return.
abbrev pub IsReady : EventLoopThreadPool ℕ → Type 0
IsReady p = (p.started ≡ true) × (p.next ≤ length p.loops)

-- What holds of a server whose loops have yet to run `tasks`, while `budget` connections are still
-- to come.
pub record IsConsistent (budget : ℕ) (s : TcpServer) (tasks : List (ℕ × Task)) : Type 0 where
  pub ready : IsReady s.thread_pool
  pub few : s.conn_count + budget < 2 ^ 31
  pub counted : s.conn_count ≡ length s.objects
  pub numbered : AreNumbered (names_of s.objects)
  pub entries : AreEntries (names_of s.objects) s.connections
  pub placed : ArePlaced (loops_of s.objects) tasks
  pub stages : (i : ℕ) → StageOf s tasks i

pub object-found :
    (s : TcpServer) (i : ℕ) (o : Served) → get_elem? s.objects i ≡ some o → object s i ≡ ok o
unfolding object
object-found s i o h = rw (h, object)

-- The connection `i` goes on to another stage, by tasks of its own.
pub put_conn-IsConsistent :
    (budget : ℕ) (s : TcpServer) (tasks tasks' : List (ℕ × Task)) (i : ℕ) (o : Served)
    (c : TcpConnection)
    → IsConsistent budget s tasks
    → get_elem? s.objects i ≡ some o
    → ArePlaced (loops_of s.objects) tasks'
    → ((j : ℕ)
        → j ≢ i
        → (total (is_establish j) tasks' ≡ total (is_establish j) tasks)
          × (total (is_remove j) tasks' ≡ total (is_remove j) tasks)
          × (total (is_destroy j) tasks' ≡ total (is_destroy j) tasks))
    → HasCallbacks c
    → Stage c
        (total (is_establish i) tasks')
        (total (is_remove i) tasks')
        (total (is_destroy i) tasks')
        (is_listed i s.connections)
    → IsConsistent budget (put_conn s i o c) tasks'
unfolding put_conn
put_conn-IsConsistent budget s tasks tasks' i o c v h placed' same callbacks stage =
    let o' : Served = record o { conn = c } in
    let names : names_of (set s.objects i o') ≡ names_of s.objects =
      names_of-set s.objects i o o' h refl in
    let loops : loops_of (set s.objects i o') ≡ loops_of s.objects =
      loops_of-set s.objects i o o' h refl in
    record {
      ready = v.ready;
      few = v.few;
      counted = v.counted ∙ sym (length-set s.objects i o');
      numbered = subst AreNumbered (sym names) v.numbered;
      entries = subst (λ l. AreEntries l s.connections) (sym names) v.entries;
      placed = subst (λ l. ArePlaced l tasks') (sym loops) placed';
      stages = λ j. elim (ℕ_discrete j i) [
        | yes e ↦
            subst (λ k. StageOf (put_conn s i o c) tasks' k) (sym e)
              (StageAt-of_eq (some o') (get_elem? (set s.objects i o') i) _ _ _ _ _ _ _ _
                (get_elem?-set_self s.objects i o' (get_elem?-some_lt s.objects i o h)) refl refl
                refl refl (callbacks, stage))
        | no ne ↦
            StageAt-of_eq (get_elem? s.objects j) (get_elem? (set s.objects i o') j) _ _ _ _ _ _ _ _
              (get_elem?-set_ne s.objects i j o' (λ e. ne (sym e))) (same j ne).0 (same j ne).1
              (same j ne).2 refl (v.stages j)
      ];
    }

pub weight_self : (i : ℕ) → ◌≡◌ {A = ℕ} (if i == i then 1 else 0) 1
weight_self i = ground arith

pub weight_ne : (i j : ℕ) → j ≢ i → ◌≡◌ {A = ℕ} (if j == i then 1 else 0) 0
weight_ne i j h = ground arith

-- The connection that a task names, at its stage.
pub stage_of_task :
    (budget : ℕ) (s : TcpServer) (tasks : List (ℕ × Task)) (i l : ℕ)
    → IsConsistent budget s tasks
    → get_elem? (loops_of s.objects) i ≡ some l
    → (o : Served) × (get_elem? s.objects i ≡ some o)
      × ((l == o.io_loop) ≡ true)
      × StageAt
          (some o)
          (total (is_establish i) tasks)
          (total (is_remove i) tasks)
          (total (is_destroy i) tasks)
          (is_listed i s.connections)
stage_of_task budget s tasks i l v h =
    let (o, found, here) = get_elem?-loops_of-some s.objects i l h in
    (
      o,
      found,
      (==_iff l o.io_loop).1 (sym here),
      StageAt-of_eq (get_elem? s.objects i) (some o) _ _ _ _ _ _ _ _ (sym found) refl refl refl refl
          (v.stages i),
    )

-- Nothing is in hand: the tasks are those in the queues.
abbrev pub IsSettled : ℕ → TcpServer → Type 0
IsSettled budget s = IsConsistent budget s s.pending

module _ (budget l i : ℕ) (s : TcpServer) where
  pub establish_connection-IsSettled :
      IsConsistent budget s ((l, establish i) ∷ s.pending)
      → Returns (establish_connection l i s) (IsSettled budget)
  unfolding establish_connection total is_establish is_remove is_destroy put_conn
  establish_connection-IsSettled v =
      let (o, found, here, at_stage) =
        stage_of_task budget s ((l, establish i) ∷ s.pending) i l v v.placed.0 in
      let (state, e, r, d, listed) =
        establish-Stage o.conn (total (is_establish i) s.pending) _ _ _
          (rw (weight_self i) at at_stage.1) in
      rw (object-found s i o found, here)
        (Returns-bind (λ c'. HasCallbacks c' × (is_open c' ≡ true)) _ _ _
          (connection_established_lem o.conn at_stage.0 state)
          λ c' (callbacks, is_up).
            put_conn-IsConsistent budget s ((l, establish i) ∷ s.pending) s.pending i o c' v found
              v.placed.1 (λ j ne. (omega (arith, weight_ne i j ne), omega arith, omega arith))
              callbacks (serving is_up e (omega arith) (omega arith) listed))

  pub destroy_connection-IsSettled :
      IsConsistent budget s ((l, destroy i) ∷ s.pending)
      → Returns (destroy_connection l i s) (IsSettled budget)
  unfolding destroy_connection total is_establish is_remove is_destroy put_conn
  destroy_connection-IsSettled v =
      let (o, found, here, at_stage) =
        stage_of_task budget s ((l, destroy i) ∷ s.pending) i l v v.placed.0 in
      let (state, e, r, d, listed) =
        destroy-Stage o.conn _ _ (total (is_destroy i) s.pending) _
          (rw (weight_self i) at at_stage.1) in
      rw (object-found s i o found, here)
        (Returns-bind
          (λ c'.
            HasCallbacks c'
            × (c'.state ≡ disconnected)
            × (c'.socket_channel.registered_to_poller ≡ false))
          _ _ _ (connection_destroyed_lem o.conn at_stage.0 state)
          λ c' (callbacks, closed, out).
            put_conn-IsConsistent budget s ((l, destroy i) ∷ s.pending) s.pending i o c' v found
              v.placed.1 (λ j ne. (omega arith, omega arith, omega (arith, weight_ne i j ne)))
              callbacks (gone closed out (omega arith) (omega arith) d listed))
