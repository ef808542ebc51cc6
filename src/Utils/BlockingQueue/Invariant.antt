-- ===== src/Utils/BlockingQueue/Invariant.antt =====
-- The queue is first in, first out, and loses no wakeup.
use mathlib.Core.List.{append_assoc}
use wethands.Prelude.{
  suc, ◌-◌, ◌≡◌, refl, sym, ap, ◌∙◌, List, [], ◌∷◌, ◌++◌, ltb, length, length-append, Bool-cases,
  inl, inr, ltb→lt, arith,
}
use wethands.Thread.Condition.{resume}
use wethands.Thread.Condition.Served.{
  Served, notify-Served, notify-Served_same, wait-Served, resume-Served, Served-mono,
}
use wethands.Utils.BlockingQueue.{
  BlockingQueue, new_blocking_queue, put, take_from, take, Event, calls_put, calls_take,
  resumes_take, wakes, step, run,
}

module _ {ℓ} {A : Type ℓ} where
  -- First in, first out, and no wakeup lost.
  pub record IsFifo (q : BlockingQueue A) : Type ℓ where
    pub in_order : q.put_log ≡ q.taken_log ++ q.queue
    pub consumers : Served q.not_empty (length q.queue)

  put-IsFifo : (q : BlockingQueue A) (x : A) → IsFifo q → IsFifo (put q x)
  unfolding put
  put-IsFifo q x f = record {
    in_order = ap (λ l. l ++ x ∷ []) f.in_order ∙ append_assoc q.taken_log q.queue (x ∷ []);
    consumers =
        rw (length-append q.queue (x ∷ []))
          (notify-Served q.not_empty (length q.queue) f.consumers);
  }

  -- `take`, also by a thread whose item was promised to it.
  take_from-IsFifo :
      (q : BlockingQueue A) (held : List A)
      → q.queue ≡ held
      → q.put_log ≡ q.taken_log ++ held
      → Served q.not_empty (length held - 1)
      → IsFifo (take_from q held)
  unfolding take_from
  take_from-IsFifo q [] e order served = record {
    in_order = order ∙ ap (λ l. q.taken_log ++ l) (sym e);
    consumers = Served-mono _ _ 0 (omega (arith, ap length e)) (wait-Served q.not_empty);
  }
  take_from-IsFifo q (x ∷ xs) e order served = record {
    in_order = order ∙ sym (append_assoc q.taken_log (x ∷ []) xs);
    consumers = Served-mono _ _ (suc (length xs) - 1) (omega arith) served;
  }

  step-IsFifo : (q : BlockingQueue A) (e : Event A) → IsFifo q → IsFifo (step q e)
  unfolding step take
  step-IsFifo q (calls_put x) f = put-IsFifo q x f
  step-IsFifo q calls_take f =
      take_from-IsFifo q q.queue refl f.in_order
        (Served-mono _ _ (length q.queue) (omega arith) f.consumers)
  step-IsFifo q resumes_take f = elim (Bool-cases (ltb 0 q.not_empty.woken)) [
    | inl some_woken ↦ rw some_woken (
        take_from-IsFifo (record q { not_empty = resume q.not_empty }) q.queue refl f.in_order
          (resume-Served q.not_empty _ f.consumers (ltb→lt _ _ some_woken)))
    | inr none_woken ↦ rw none_woken f
  ]
  step-IsFifo q wakes f = record {
    in_order = f.in_order;
    consumers = notify-Served_same q.not_empty _ f.consumers;
  }

  run-IsFifo : (q : BlockingQueue A) (es : List (Event A)) → IsFifo q → IsFifo (run q es)
  unfolding run
  run-IsFifo q [] f = f
  run-IsFifo q (e ∷ es) f = run-IsFifo (step q e) es (step-IsFifo q e f)

  -- Whatever the schedule of calls, wakeups and resumptions on a new queue: what was taken followed
  -- by what is held is what was put, in order; and while a consumer sleeps every item is promised
  -- to a woken one.
  pub run_new-IsFifo : (es : List (Event A)) → IsFifo (run new_blocking_queue es)
  unfolding new_blocking_queue
  run_new-IsFifo es =
      run-IsFifo new_blocking_queue es (record { in_order = refl; consumers = λ h. elim h [ ] })
