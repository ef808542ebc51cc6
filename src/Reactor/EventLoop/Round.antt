-- ===== src/Reactor/EventLoop/Round.antt =====
-- One round of a loop whose poll returns.
use std.Path.{subst}
use mathlib.Core.List.{append_assoc, append-nil}
use wethands.Prelude.{
  ℕ, zero, suc, ◌≡◌, refl, sym, ap, ◌∙◌, true, not, List, [], ◌∷◌, ◌++◌, length, if◌then◌else◌,
}
use wethands.Reactor.EventLoop.{
  Eventfd, Task, polling, running, stopped, EventLoop, Event, advances, next_round, swap_functors,
  run_functor, handle_eventfd_read, advance_from, advance, step, run,
}

-- The loop goes on by itself some times, and its poll reports the eventfd.
unfoldable pub turns {ℓ} : (A : Type ℓ) → ℕ → List (Event A)
turns A zero = []
turns A (suc n) = advances true ∷ turns A n

module _ {ℓ κ} {A : Type ℓ} {S : Type κ} where
  -- What was pending has been run, nothing is pending, and the loop is at its next poll or, if it
  -- shall quit, past its end.
  pub record RoundOf (before after : EventLoop A S) (tasks : List (Task A)) : Type ℓ where
    pub executed : after.executed ≡ before.executed ++ tasks
    pub pending_functors : after.pending_functors ≡ []
    pub phase : after.phase ≡ (if not before.quit then polling else stopped)

  module _ (fd : Eventfd S) where
    run_all :
        (tasks : List (Task A)) (e : EventLoop A S)
        → e.pending_functors ≡ []
        → RoundOf e
            (run fd (record e { phase = running tasks }) (turns A (suc (length tasks))))
            tasks
    unfolding turns run step advance advance_from run_functor next_round
    run_all [] e none_pending = record {
      executed = sym (append-nil e.executed);
      pending_functors = none_pending;
      phase = refl;
    }
    run_all (task ∷ tasks) e none_pending =
        let r = run_all tasks (record e { executed = e.executed ++ task ∷ [] }) none_pending in
        record {
          executed = r.executed ∙ append_assoc e.executed (task ∷ []) tasks;
          pending_functors = r.pending_functors;
          phase = r.phase;
        }

    round_from_poll :
        (e : EventLoop A S)
        → RoundOf e
            (run fd
              (record e { phase = polling })
              (turns A (suc (suc (suc (suc (length e.pending_functors)))))))
            e.pending_functors
    unfolding turns run step advance advance_from handle_eventfd_read swap_functors
    round_from_poll e =
        let r =
          run_all e.pending_functors
            (record e { eventfd = fd.read e.eventfd; pending_functors = [] }) refl in
        record { executed = r.executed; pending_functors = r.pending_functors; phase = r.phase }

    -- When the poll of a loop returns with the eventfd and nothing else happens, the loop runs all
    -- tasks that were pending, in their order, within one round, and comes to its next poll, or to
    -- its end if it shall quit.
    pub round_lem :
        (e : EventLoop A S)
        → e.phase ≡ polling
        → RoundOf e
            (run fd e (turns A (suc (suc (suc (suc (length e.pending_functors)))))))
            e.pending_functors
    round_lem e at =
        let started : record e { phase = polling } ≡ e =
          ap (λ phase. record e { phase = phase }) (sym at) in
        subst
          (λ e'.
            RoundOf e (run fd e' (turns A (suc (suc (suc (suc (length e.pending_functors)))))))
              e.pending_functors)
          started (round_from_poll e)
