-- ===== src/Net/TcpServer/Operations.antt =====
-- The operations of a server keep each connection at one of its stages.
use mathlib.Core.Path.{subst}
use native.Mathlib.Decide.{ℕ_discrete}
use wethands.Prelude.{
  ℕ, ◌+◌, ◌≡◌, ◌≢◌, refl, sym, ◌∙◌, Bool, true, false, not, ◌&&◌, some, List, ◌∷◌, ◌==◌, get_elem?,
  get_elem?-of_lt, get_elem?-some_lt, if◌then◌else◌, Bool-cases, inl, inr, Result, Returns,
  Returns-bind, ==_iff, arith,
}
use wethands.Net.TcpConnection.{TcpConnection, disconnected, shutdown}
use wethands.Net.TcpServer.{
  TcpServer, Served, Task, remove, destroy, put_conn, destroy_connection, run_in_loop,
  remove_connection_in_loop, remove_connection, close_connection, is_open, erase,
}
use wethands.Net.TcpServer.Stages.{
  HasCallbacks, Stage, opening, serving, leaving, ending, gone, StageAt, StageAt-of_eq,
  handle_close_lem, shutdown_lem, remove-Stage,
}
use wethands.Net.TcpServer.Table.{
  is_listed, names_of, get_elem?-names_of, is_listed-erase, erase-AreEntries,
}
use wethands.Net.TcpServer.Queue.{
  is_establish, is_remove, is_destroy, total, loops_of, get_elem?-loops_of, ArePlaced, total-snoc,
  snoc-ArePlaced, length-loops_of,
}
use wethands.Net.TcpServer.Lifecycle.{
  StageOf, IsConsistent, IsSettled, object-found, put_conn-IsConsistent, weight_self, weight_ne,
  destroy_connection-IsSettled,
}

-- The same tasks in other places.
pub move-IsConsistent :
    (budget : ℕ) (s : TcpServer) (tasks tasks' pending : List (ℕ × Task))
    → IsConsistent budget s tasks
    → ArePlaced (loops_of s.objects) tasks'
    → ((weight : Task → ℕ) → total weight tasks' ≡ total weight tasks)
    → IsConsistent budget (record s { pending = pending }) tasks'
move-IsConsistent budget s tasks tasks' pending v placed' same = record {
  ready = v.ready;
  few = v.few;
  counted = v.counted;
  numbered = v.numbered;
  entries = v.entries;
  placed = placed';
  stages = λ i.
      StageAt-of_eq (get_elem? s.objects i) (get_elem? s.objects i) _ _ _ _ _ _ _ _ refl
        (same (is_establish i)) (same (is_remove i)) (same (is_destroy i)) refl (v.stages i);
}

-- A task is run at once or queued.
pub run_in_loop-IsSettled :
    (budget this_loop target : ℕ) (task : Task) (now : TcpServer → Result TcpServer) (s : TcpServer)
    → IsConsistent budget s ((target, task) ∷ s.pending)
    → (this_loop ≡ target → Returns (now s) (IsSettled budget))
    → Returns (run_in_loop this_loop target task now s) (IsSettled budget)
unfolding run_in_loop total
run_in_loop-IsSettled budget this_loop target task now s v h =
    elim (Bool-cases (this_loop == target)) [
      | inl here ↦ rw here (h ((==_iff this_loop target).0 here))
      | inr there ↦ rw there (
          move-IsConsistent budget s ((target, task) ∷ s.pending) _ _ v
            (snoc-ArePlaced (loops_of s.objects) s.pending target task v.placed.0 v.placed.1)
            (λ weight. total-snoc weight s.pending target task))
    ]

and_not_self : (i : ℕ) (b : Bool) → (b && not (i == i)) ≡ false
and_not_self i b = ground arith

and_not_ne : (i j : ℕ) (b : Bool) → j ≢ i → (b && not (j == i)) ≡ b
and_not_ne i j b h = ground arith

module _ (budget l i : ℕ) (s : TcpServer) where
  -- A connection that was closed is to be destroyed once its entry is gone.
  erased_stage :
      (o : Served)
      → get_elem? s.objects i ≡ some o
      → StageOf s ((l, remove i) ∷ s.pending) i
      → (listed : Bool) → listed ≡ false
      → StageAt
          (get_elem? s.objects i)
          (total (is_establish i) s.pending)
          (total (is_remove i) s.pending)
          ((if i == i then 1 else 0) + total (is_destroy i) s.pending)
          listed
  unfolding total is_establish is_remove is_destroy
  erased_stage o found stage listed out =
      let at_stage : StageAt (some o) (total (is_establish i) s.pending)
          ((if i == i then 1 else 0) + total (is_remove i) s.pending)
          (total (is_destroy i) s.pending) (is_listed i s.connections) =
        StageAt-of_eq (get_elem? s.objects i) (some o) _ _ _ _ _ _ _ _ (sym found) (omega arith)
          refl (omega arith) refl stage in
      let (state, e, r, d) =
        remove-Stage o.conn _ (total (is_remove i) s.pending) _ _
          (rw (weight_self i) at at_stage.1) in
      StageAt-of_eq (some o) (get_elem? s.objects i) _ _ _ _ _ _ _ _ found refl refl refl refl
        (at_stage.0, ending state e r (omega (arith, weight_self i)) out)

  -- Without its entry the connection is to be destroyed in its loop.
  erase-IsConsistent :
      (o : Served)
      → get_elem? s.objects i ≡ some o
      → IsConsistent budget s ((l, remove i) ∷ s.pending)
      → IsConsistent budget
          (record s { connections = erase o.name s.connections })
          ((o.io_loop, destroy i) ∷ s.pending)
  unfolding total is_establish is_remove is_destroy
  erase-IsConsistent o found v =
      let named = get_elem?-names_of s.objects i o found in
      let listed = λ (j : ℕ).
        is_listed-erase (names_of s.objects) v.numbered i o.name named j s.connections v.entries in
      record {
        ready = v.ready;
        few = v.few;
        counted = v.counted;
        numbered = v.numbered;
        entries =
            erase-AreEntries (names_of s.objects) v.numbered i o.name named s.connections v.entries;
        placed = (get_elem?-loops_of s.objects i o found, v.placed.1);
        stages = λ j. elim (ℕ_discrete j i) [
          | yes e ↦
              subst
                (λ k.
                  StageOf (record s { connections = erase o.name s.connections })
                    ((o.io_loop, destroy i) ∷ s.pending) k)
                (sym e)
                (StageAt-of_eq (get_elem? s.objects i) (get_elem? s.objects i) _ _ _ _ _ _ _ _ refl
                  (omega arith) (omega arith) refl refl
                  (erased_stage o found (v.stages i) _
                    (listed i ∙ and_not_self i (is_listed i s.connections))))
          | no ne ↦
              StageAt-of_eq (get_elem? s.objects j) (get_elem? s.objects j) _ _ _ _ _ _ _ _ refl
                refl (omega (arith, weight_ne i j ne)) (omega (arith, weight_ne i j ne))
                (listed j ∙ and_not_ne i j (is_listed j s.connections) ne) (v.stages j)
        ];
      }

  pub remove_connection_in_loop-IsSettled :
      IsConsistent budget s ((l, remove i) ∷ s.pending)
      → Returns (remove_connection_in_loop l i s) (IsSettled budget)
  unfolding remove_connection_in_loop
  remove_connection_in_loop-IsSettled v =
      let (o, found) =
        get_elem?-of_lt s.objects i (omega (arith, length-loops_of s.objects, v.placed.0.1)) in
      let s' : TcpServer = record s { connections = erase o.name s.connections } in
      let v' = erase-IsConsistent o found v in
      rw ((==_iff l 0).1 v.placed.0.0, object-found s i o found)
        (run_in_loop-IsSettled budget l o.io_loop (destroy i) (destroy_connection l i) s' v' (λ e.
          destroy_connection-IsSettled budget l i s'
            (subst (λ k. IsConsistent budget s' ((k, destroy i) ∷ s.pending)) (sym e) v')))

-- `RemoveConnection`, in the thread of any loop.
remove_connection-IsSettled :
    (budget this_loop i : ℕ) (s : TcpServer)
    → IsConsistent budget s ((0, remove i) ∷ s.pending)
    → Returns (remove_connection this_loop i s) (IsSettled budget)
unfolding remove_connection
remove_connection-IsSettled budget this_loop i s v =
    run_in_loop-IsSettled budget this_loop 0 (remove i) (remove_connection_in_loop this_loop i) s v
      (λ e.
        remove_connection_in_loop-IsSettled budget this_loop i s
          (subst (λ k. IsConsistent budget s ((k, remove i) ∷ s.pending)) (sym e) v))

-- An open connection has no task.
open-Stage :
    (c : TcpConnection) (e r d : ℕ) (listed : Bool)
    → is_open c ≡ true
    → Stage c e r d listed
    → (e ≡ 0) × (r ≡ 0) × (d ≡ 0) × (listed ≡ true)
unfolding is_open
open-Stage c e r d listed up (opening s h k m w) = ground arith
open-Stage c e r d listed up (serving s h k m w) = (h, k, m, w)
open-Stage c e r d listed up (leaving s h k m w) = ground arith
open-Stage c e r d listed up (ending s h k m w) = ground arith
open-Stage c e r d listed up (gone s g h k m w) = ground arith

module _ (budget i : ℕ) (s : TcpServer) (o : Served) (found : get_elem? s.objects i ≡ some o)
    (v : IsSettled budget s) where
  at_stage :
      StageAt
        (some o)
        (total (is_establish i) s.pending)
        (total (is_remove i) s.pending)
        (total (is_destroy i) s.pending)
        (is_listed i s.connections)
  at_stage =
      StageAt-of_eq (get_elem? s.objects i) (some o) _ _ _ _ _ _ _ _ (sym found) refl refl refl refl
        (v.stages i)

  -- The loop of an open connection closes it.
  pub close_connection-IsSettled :
      is_open o.conn ≡ true → Returns (close_connection i s) (IsSettled budget)
  unfolding close_connection total is_establish is_remove is_destroy put_conn
  close_connection-IsSettled up =
      let (e, r, d, listed) = open-Stage o.conn _ _ _ _ up at_stage.1 in
      rw (object-found s i o found) (
        Returns-bind (λ c'. HasCallbacks c' × (c'.state ≡ disconnected)) _ _ _
          (handle_close_lem o.conn at_stage.0 up)
          λ c' (callbacks, closed).
            remove_connection-IsSettled budget o.io_loop i (put_conn s i o c') (
              put_conn-IsConsistent budget s s.pending ((0, remove i) ∷ s.pending) i o c' v found
                (
                  (
                    refl,
                    omega (arith, length-loops_of s.objects, get_elem?-some_lt s.objects i o found),
                  ),
                  v.placed,
                )
                (λ j ne. (omega arith, omega (arith, weight_ne i j ne), omega arith)) callbacks
                (leaving closed (omega arith) (omega (arith, weight_self i)) (omega arith) listed)))

  -- Its user shuts a connection down.
  pub shutdown-IsSettled : IsSettled budget (put_conn s i o (shutdown true o.conn))
  unfolding put_conn
  shutdown-IsSettled =
      let (callbacks, stays, same) = shutdown_lem o.conn at_stage.0 in
      put_conn-IsConsistent budget s s.pending s.pending i o (shutdown true o.conn) v found v.placed
        (λ j ne. (refl, refl, refl)) callbacks
        (elim (Bool-cases (is_open o.conn)) [
          | inl up ↦
              let (e, r, d, listed) = open-Stage o.conn _ _ _ _ up at_stage.1 in
              serving (stays up) e r d listed
          | inr down ↦
              subst
                (λ c.
                  Stage c (total (is_establish i) s.pending) (total (is_remove i) s.pending)
                    (total (is_destroy i) s.pending) (is_listed i s.connections))
                (sym (same down)) at_stage.1
        ])
