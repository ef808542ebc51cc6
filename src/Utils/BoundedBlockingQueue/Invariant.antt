-- ===== src/Utils/BoundedBlockingQueue/Invariant.antt =====
-- Every schedule keeps the queue a first-in first-out queue within its capacity, and loses no
-- wakeup.
use mathlib.Core.List.{append_assoc}
use wethands.Prelude.{
  ℕ, suc, ◌+◌, ◌-◌, ◌^◌, ◌<◌, ◌≤◌, ◌≡◌, refl, sym, ap, ◌∙◌, false, List, [], ◌∷◌, ◌++◌, ltb,
  Returns, Returns-bind, length, arith, Bool-cases, inl, inr, ltb→lt, length-append,
}
use wethands.Thread.Condition.{resume}
use wethands.Thread.Condition.Served.{
  Served, notify-Served, notify-Served_same, wait-Served, resume-Served, Served-mono,
}
use wethands.Utils.CircularQueue.{new_queue, is_empty, is_full}
use wethands.Utils.CircularQueue.Represents.{
  Represents, new_queue-Represents, is_full_iff, is_empty_iff, push_back_lem, pop_front_lem,
}
use wethands.Utils.BoundedBlockingQueue.{
  Monitor, new_monitor, put, take, Event, calls_put, calls_take, resumes_put, resumes_take,
  wakes_producer, wakes_consumer, step, run,
}

module _ {ℓ} {A : Type ℓ} where
  -- The monitor holds `xs`, which is what went in and has not come out; `items` and `places` of
  -- them are promised to woken threads while others sleep.
  pub record Holds (capacity : ℕ) (m : Monitor A) (xs : List A) (items places : ℕ) : Type ℓ where
    pub represents : Represents m.queue xs
    pub capacity_eq : m.queue.cap ≡ capacity
    pub in_order : m.put_log ≡ m.taken_log ++ xs
    pub consumers : Served m.not_empty items
    pub producers : Served m.not_full places

  -- First in, first out, within the capacity, and no wakeup lost.
  abbrev pub Good : ℕ → Monitor A → Type ℓ
  Good capacity m =
      (xs : List A) × (length xs ≤ capacity)
      × Holds capacity m xs (length xs) (capacity - length xs)

  new_monitor-Good :
      (reserve : ℕ → ℕ) (n : ℕ)
      → 0 < reserve n
      → reserve n < 2 ^ 63
      → Good (reserve n) (new_monitor reserve n)
  unfolding new_monitor
  new_monitor-Good reserve n pos small = (
    [],
    omega arith,
    record {
      represents = new_queue-Represents reserve n pos small;
      capacity_eq = unfold new_queue in refl;
      in_order = refl;
      consumers = λ h. elim h [ ];
      producers = λ h. elim h [ ];
    },
  )

  -- `put`, also by a thread whose place was promised to it.
  put-Good :
      (capacity : ℕ) (m : Monitor A) (x : A) (xs : List A)
      → length xs ≤ capacity
      → Holds capacity m xs (length xs) (capacity - length xs - 1)
      → Returns (put m x) (Good capacity)
  unfolding put
  put-Good capacity m x xs within h = elim (Bool-cases (is_full m.queue)) [
    | inl full ↦ rw full (
      xs,
      within,
      record {
        represents = h.represents;
        capacity_eq = h.capacity_eq;
        in_order = h.in_order;
        consumers = h.consumers;
        producers =
            Served-mono _ _ 0 (ground (arith, is_full_iff m.queue xs h.represents, h.capacity_eq))
              (wait-Served m.not_full);
      },
    )
    | inr free ↦
        (let (q, e, r, c) =
            push_back_lem m.queue xs x h.represents
              (ground (arith, is_full_iff m.queue xs h.represents, h.represents.ring)) in
          rw (free, e)
            (
              xs ++ x ∷ [],
              ground (
                arith,
                length-append xs (x ∷ []),
                is_full_iff m.queue xs h.represents,
                h.capacity_eq,
                h.represents,
              ),
              record {
                represents = r;
                capacity_eq = c ∙ h.capacity_eq;
                in_order = ap (λ l. l ++ x ∷ []) h.in_order ∙ append_assoc m.taken_log xs (x ∷ []);
                consumers =
                    rw (length-append xs (x ∷ []))
                      (notify-Served m.not_empty (length xs) h.consumers);
                producers =
                    rw (length-append xs (x ∷ []))
                      (Served-mono _ _ (capacity - length xs - 1) (omega arith) h.producers);
              },
            ))
  ]

  -- `take`, also by a thread whose item was promised to it.
  take-Good :
      (capacity : ℕ) (m : Monitor A) (xs : List A)
      → length xs ≤ capacity
      → Holds capacity m xs (length xs - 1) (capacity - length xs)
      → Returns (take m) (Good capacity)
  unfolding take
  take-Good capacity m [] within h = rw (is_empty_iff m.queue [] h.represents) (
    [],
    within,
    record {
      represents = h.represents;
      capacity_eq = h.capacity_eq;
      in_order = h.in_order;
      consumers = wait-Served m.not_empty;
      producers = h.producers;
    },
  )
  take-Good capacity m (x ∷ xs) within h =
      (let (first, rest) = pop_front_lem m.queue x xs h.represents in
        let (q, e, r, c) = rest in
        let some_left : is_empty m.queue ≡ false =
          ground (arith, is_empty_iff m.queue (x ∷ xs) h.represents) in
        rw (some_left, first, e)
          (
            xs,
            omega arith,
            record {
              represents = r;
              capacity_eq = c ∙ h.capacity_eq;
              in_order = h.in_order ∙ sym (append_assoc m.taken_log (x ∷ []) xs);
              consumers = Served-mono _ _ (suc (length xs) - 1) (omega arith) h.consumers;
              producers =
                  Served-mono _ _ (capacity - suc (length xs) + 1) (omega arith)
                    (notify-Served m.not_full (capacity - suc (length xs)) h.producers);
            },
          ))

  -- One event of the schedule faults in no way and keeps the monitor good.
  step-Good :
      (capacity : ℕ) (m : Monitor A) (e : Event A)
      → Good capacity m
      → Returns (step m e) (Good capacity)
  unfolding step
  step-Good capacity m (calls_put x) (xs, w, h) = put-Good capacity m x xs w (record {
    represents = h.represents;
    capacity_eq = h.capacity_eq;
    in_order = h.in_order;
    consumers = h.consumers;
    producers = Served-mono _ _ (capacity - length xs) (omega arith) h.producers;
  })
  step-Good capacity m calls_take (xs, w, h) = take-Good capacity m xs w (record {
    represents = h.represents;
    capacity_eq = h.capacity_eq;
    in_order = h.in_order;
    consumers = Served-mono _ _ (length xs) (omega arith) h.consumers;
    producers = h.producers;
  })
  step-Good capacity m (resumes_put x) (xs, w, h) = elim (Bool-cases (ltb 0 m.not_full.woken)) [
    | inl some_woken ↦ rw some_woken (
        put-Good capacity (record m { not_full = resume m.not_full }) x xs w
          (record {
            represents = h.represents;
            capacity_eq = h.capacity_eq;
            in_order = h.in_order;
            consumers = h.consumers;
            producers = resume-Served m.not_full _ h.producers (ltb→lt _ _ some_woken);
          }))
    | inr none_woken ↦ rw none_woken (xs, w, h)
  ]
  step-Good capacity m resumes_take (xs, w, h) = elim (Bool-cases (ltb 0 m.not_empty.woken)) [
    | inl some_woken ↦ rw some_woken (
        take-Good capacity (record m { not_empty = resume m.not_empty }) xs w
          (record {
            represents = h.represents;
            capacity_eq = h.capacity_eq;
            in_order = h.in_order;
            consumers = resume-Served m.not_empty _ h.consumers (ltb→lt _ _ some_woken);
            producers = h.producers;
          }))
    | inr none_woken ↦ rw none_woken (xs, w, h)
  ]
  step-Good capacity m wakes_producer (xs, w, h) = (
    xs,
    w,
    record {
      represents = h.represents;
      capacity_eq = h.capacity_eq;
      in_order = h.in_order;
      consumers = h.consumers;
      producers = notify-Served_same m.not_full _ h.producers;
    },
  )
  step-Good capacity m wakes_consumer (xs, w, h) = (
    xs,
    w,
    record {
      represents = h.represents;
      capacity_eq = h.capacity_eq;
      in_order = h.in_order;
      consumers = notify-Served_same m.not_empty _ h.consumers;
      producers = h.producers;
    },
  )

  run-Good :
      (capacity : ℕ) (m : Monitor A) (es : List (Event A))
      → Good capacity m
      → Returns (run m es) (Good capacity)
  unfolding run
  run-Good capacity m [] g = g
  run-Good capacity m (e ∷ es) g =
      Returns-bind (Good capacity) (Good capacity) (step m e) (λ m'. run m' es)
        (step-Good capacity m e g) (λ m' g'. run-Good capacity m' es g')

  -- Whatever the schedule of calls, wakeups and resumptions of a queue with some capacity: no step
  -- faults, what was taken followed by what is held is what was put, in order; at most `capacity`
  -- items are held; and while a consumer sleeps every item is promised to a woken one, while a
  -- producer sleeps every free place is.
  pub run_new-Good :
      (reserve : ℕ → ℕ) (n : ℕ) (es : List (Event A))
      → 0 < reserve n
      → reserve n < 2 ^ 63
      → Returns (run (new_monitor reserve n) es) (Good (reserve n))
  run_new-Good reserve n es pos small =
      run-Good (reserve n) (new_monitor reserve n) es (new_monitor-Good reserve n pos small)
