-- ===== src/Thread/ThreadPool/Run.antt =====
-- Under any schedule the pool keeps its invariant, and leaves nobody asleep when it stops.
use wethands.Prelude.{ℕ, ◌≡◌, refl, List, [], ◌∷◌, ◌++◌, ltb, ◌==◌, length, if_lem, ltb→lt, arith}
use wethands.Prelude.Int.{ℤ}
use wethands.Thread.Condition.{Condition, notify, notify_all, resume}
use wethands.Thread.Condition.Served.{notify-Served_same, resume-Served, Served-mono}
use wethands.Thread.ThreadPool.{
  ThreadPool, start, stop, run, take, Event, calls_run, calls_take, resumes_run, resumes_take,
  wakes_caller, wakes_thread, stops, step, run_events,
}
use wethands.Thread.ThreadPool.Invariant.{
  IsGood, places, promise, resumed, put-IsGood, take_from-IsGood,
}

still_none : (c : Condition) → c.asleep ≡ 0 → (notify c).asleep ≡ 0
unfolding notify
still_none c h = ground (arith, h)

module _ {ℓ} {A : Type ℓ} where
  stop-IsGood : (p : ThreadPool A) → IsGood p → IsGood (stop p)
  unfolding stop notify_all
  stop-IsGood p g = record {
    in_order = g.in_order;
    bounded = g.bounded;
    unbounded = λ u. refl;
    consumers = λ h. elim h [ ];
    producers = λ h. elim h [ ];
    stopped = λ over. (refl, refl);
  }

  step-IsGood : (p : ThreadPool A) (e : Event A) → IsGood p → IsGood (step p e)
  unfolding step run take resume
  step-IsGood p (calls_run task) g =
      if_lem IsGood (p.threads == 0) _ _
        (λ alone. promise p _ _ p.given_up (p.run_by_caller ++ task ∷ []) g g.consumers g.producers)
        (λ shared. put-IsGood p task (
          promise p _ _ p.given_up p.run_by_caller g g.consumers
            (Served-mono _ _ (places p) (omega arith) g.producers)))
  step-IsGood p calls_take g =
      if_lem IsGood p.running _ _
        (λ runs. take_from-IsGood p p.queue refl (
          promise p _ _ p.given_up p.run_by_caller g
            (Served-mono _ _ (length p.queue) (omega arith) g.consumers) g.producers))
        (λ over. g)
  step-IsGood p (resumes_run task) g =
      if_lem IsGood (ltb 0 p.not_full.woken) _ _
        (λ some_woken.
          put-IsGood (record p { not_full = resume p.not_full }) task
            (resumed p _ _ p.not_empty (resume p.not_full) refl refl g g.consumers
              (resume-Served p.not_full _ g.producers (ltb→lt _ _ some_woken))))
        (λ none_woken. g)
  step-IsGood p resumes_take g =
      if_lem IsGood (ltb 0 p.not_empty.woken) _ _
        (λ some_woken.
          take_from-IsGood (record p { not_empty = resume p.not_empty }) p.queue refl
            (resumed p _ _ (resume p.not_empty) p.not_full refl refl g
              (resume-Served p.not_empty _ g.consumers (ltb→lt _ _ some_woken)) g.producers))
        (λ none_woken. g)
  step-IsGood p wakes_caller g = record {
    in_order = g.in_order;
    bounded = g.bounded;
    unbounded = λ u. still_none p.not_full (g.unbounded u);
    consumers = g.consumers;
    producers = notify-Served_same p.not_full _ g.producers;
    stopped = λ over. ((g.stopped over).0, still_none p.not_full (g.stopped over).1);
  }
  step-IsGood p wakes_thread g = record {
    in_order = g.in_order;
    bounded = g.bounded;
    unbounded = g.unbounded;
    consumers = notify-Served_same p.not_empty _ g.consumers;
    producers = g.producers;
    stopped = λ over. (still_none p.not_empty (g.stopped over).0, (g.stopped over).1);
  }
  step-IsGood p stops g = stop-IsGood p g

  run_events-IsGood : (p : ThreadPool A) (es : List (Event A)) → IsGood p → IsGood (run_events p es)
  unfolding run_events
  run_events-IsGood p [] g = g
  run_events-IsGood p (e ∷ es) g = run_events-IsGood (step p e) es (step-IsGood p e g)

  -- Whatever the schedule of callers, threads of the pool, wakeups and a stop, for any bound on the
  -- queue: what was taken followed by what is queued is what was queued, in order; a bounded queue
  -- is within its bound, and in one without a bound no caller sleeps; while a thread sleeps every
  -- task is promised to a woken one, while a caller sleeps every free place is; and once the pool
  -- has stopped nobody sleeps.
  pub run_started-IsGood :
      (max_queue_size : ℤ) (num_threads : ℕ) (es : List (Event A))
      → IsGood (run_events (start max_queue_size num_threads) es)
  unfolding start
  run_started-IsGood max_queue_size num_threads es =
      run_events-IsGood (start max_queue_size num_threads) es (record {
        in_order = refl;
        bounded = λ b. omega arith;
        unbounded = λ u. refl;
        consumers = λ h. elim h [ ];
        producers = λ h. elim h [ ];
        stopped = λ over. (refl, refl);
      })
