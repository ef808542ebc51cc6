-- ===== src/Thread/ThreadPool/Invariant.antt =====
-- Under any schedule the pool runs its tasks in order, within its bound, loses no wakeup, and leaves
-- nobody asleep when it stops.
use mathlib.Core.List.{append_assoc}
use wethands.Prelude.{
  ℕ, suc, ◌+◌, ◌-◌, ◌<◌, ◌≤◌, ◌≡◌, sym, ap, ◌∙◌, Bool, true, false, not, ◌&&◌, List, [], ◌∷◌, ◌++◌,
  length, length-append, if_lem, arith,
}
use wethands.Prelude.Int.{is_positive, pos_part}
use wethands.Thread.Condition.{Condition}
use wethands.Thread.Condition.Served.{Served, notify-Served, wait-Served, Served-mono}
use wethands.Thread.ThreadPool.{ThreadPool, queue_is_full, put, take_from}

both : (a b : Bool) → (a && b) ≡ true → (a ≡ true) × (b ≡ true)
both a b h = ground (arith, h)

first_false : (a b : Bool) → (a && b) ≡ false → not b ≡ false → a ≡ false
first_false a b h k = ground (arith, h, k)

not-true : (a : Bool) → not a ≡ true → a ≡ false
not-true a h = ground (arith, h)

module _ {ℓ} {A : Type ℓ} where
  -- The pool with `items` of its tasks and `places` of its free places promised to woken threads.
  pub record Promises (p : ThreadPool A) (items places : ℕ) : Type ℓ where
    pub in_order : p.queued ≡ p.taken ++ p.queue
    pub bounded : is_positive p.max_queue_size ≡ true → length p.queue ≤ pos_part p.max_queue_size
    pub unbounded : is_positive p.max_queue_size ≡ false → p.not_full.asleep ≡ 0
    pub consumers : Served p.not_empty items
    pub producers : Served p.not_full places
    pub stopped : p.running ≡ false → (p.not_empty.asleep ≡ 0) × (p.not_full.asleep ≡ 0)

  -- The free places of a bounded pool.
  abbrev pub places : ThreadPool A → ℕ
  places p = pos_part p.max_queue_size - length p.queue

  abbrev pub IsGood : ThreadPool A → Type ℓ
  IsGood p = Promises p (length p.queue) (places p)

  -- Other promises on the same pool; tasks that it does not queue make no difference.
  pub promise :
      (p : ThreadPool A) {i n : ℕ} (i' n' : ℕ)
      → (given_up run_by_caller : List A) → Promises p i n
      → Served p.not_empty i'
      → Served p.not_full n'
      → Promises (record p { given_up = given_up; run_by_caller = run_by_caller }) i' n'
  promise p i' n' given_up run_by_caller g consumers producers = record {
    in_order = g.in_order;
    bounded = g.bounded;
    unbounded = g.unbounded;
    consumers = consumers;
    producers = producers;
    stopped = g.stopped;
  }

  -- Threads that leave their wait change the promises only.
  pub resumed :
      (p : ThreadPool A) {i n : ℕ} (i' n' : ℕ)
      → (not_empty not_full : Condition) → not_empty.asleep ≡ p.not_empty.asleep
      → not_full.asleep ≡ p.not_full.asleep
      → Promises p i n
      → Served not_empty i'
      → Served not_full n'
      → Promises (record p { not_empty = not_empty; not_full = not_full }) i' n'
  resumed p i' n' not_empty not_full e f g consumers producers = record {
    in_order = g.in_order;
    bounded = g.bounded;
    unbounded = λ u. f ∙ g.unbounded u;
    consumers = consumers;
    producers = producers;
    stopped = λ over. (e ∙ (g.stopped over).0, f ∙ (g.stopped over).1);
  }

  full_iff :
      (p : ThreadPool A)
      → queue_is_full p ≡ true
      → (is_positive p.max_queue_size ≡ true) × (pos_part p.max_queue_size ≤ length p.queue)
  unfolding queue_is_full
  full_iff p h = ground (arith, h)

  free_lem :
      (p : ThreadPool A)
      → queue_is_full p ≡ false
      → is_positive p.max_queue_size ≡ true
      → length p.queue < pos_part p.max_queue_size
  unfolding queue_is_full
  free_lem p h b = ground (arith, h, b)

  -- `put`, also by a thread whose place was promised to it.
  pub put-IsGood :
      (p : ThreadPool A) (task : A)
      → Promises p (length p.queue) (places p - 1)
      → IsGood (put p task)
  unfolding put
  put-IsGood p task g =
      if_lem IsGood (queue_is_full p && p.running) _ _
        (λ waits.
          let (full, runs) = both (queue_is_full p) p.running waits in
          record {
            in_order = g.in_order;
            bounded = g.bounded;
            unbounded = λ h. absurd (ground (arith, full_iff p full, h));
            consumers = g.consumers;
            producers =
                Served-mono _ _ 0 (ground (arith, full_iff p full)) (wait-Served p.not_full);
            stopped = λ over. absurd (ground (arith, runs, over));
          })
        (λ goes.
          if_lem IsGood (not p.running) _ _
            (λ over.
              promise p _ _ (p.given_up ++ task ∷ []) p.run_by_caller g g.consumers
                (λ h. absurd (omega (arith, h, (g.stopped (not-true p.running over)).1))))
            (λ runs. record {
              in_order =
                  ap (λ l. l ++ task ∷ []) g.in_order ∙ append_assoc p.taken p.queue (task ∷ []);
              bounded = λ b. omega (
                arith,
                length-append p.queue (task ∷ []),
                free_lem p (first_false (queue_is_full p) p.running goes runs) b,
              );
              unbounded = g.unbounded;
              consumers =
                  rw (length-append p.queue (task ∷ []))
                    (notify-Served p.not_empty (length p.queue) g.consumers);
              producers =
                  Served-mono _ _ (places p - 1) (omega (arith, length-append p.queue (task ∷ [])))
                    g.producers;
              stopped = λ over. absurd (ground (arith, runs, over));
            }))

  -- `take_from`, also by a thread whose item was promised to it.
  pub take_from-IsGood :
      (p : ThreadPool A) (held : List A)
      → p.queue ≡ held
      → Promises p (length held - 1) (places p)
      → IsGood (take_from p held)
  unfolding take_from
  take_from-IsGood p [] e g =
      if_lem IsGood p.running _ _
        (λ runs. record {
          in_order = g.in_order;
          bounded = g.bounded;
          unbounded = g.unbounded;
          consumers = Served-mono _ _ 0 (omega (arith, ap length e)) (wait-Served p.not_empty);
          producers = g.producers;
          stopped = λ over. absurd (ground (arith, runs, over));
        })
        (λ over.
          promise p _ _ p.given_up p.run_by_caller g
            (Served-mono _ _ 0 (omega (arith, ap length e)) g.consumers) g.producers)
  take_from-IsGood p (task ∷ tasks) e g =
      if_lem IsGood p.running _ _
        (λ runs.
          if_lem
            (λ c. IsGood (record p { queue = tasks; taken = p.taken ++ task ∷ []; not_full = c }))
            (is_positive p.max_queue_size) _ _
            (λ b. record {
              in_order = order;
              bounded = λ h. omega (arith, ap length e, g.bounded b);
              unbounded = λ h. absurd (ground (arith, h, b));
              consumers = Served-mono _ _ (suc (length tasks) - 1) (omega arith) g.consumers;
              producers =
                  Served-mono _ _ (places p + 1) (omega (arith, ap length e))
                    (notify-Served p.not_full (places p) g.producers);
              stopped = λ over. absurd (ground (arith, runs, over));
            })
            (λ u. record {
              in_order = order;
              bounded = λ h. absurd (ground (arith, h, u));
              unbounded = g.unbounded;
              consumers = Served-mono _ _ (suc (length tasks) - 1) (omega arith) g.consumers;
              producers = λ h. absurd (omega (arith, h, g.unbounded u));
              stopped = λ over. absurd (ground (arith, runs, over));
            }))
        (λ over.
          promise p _ _ p.given_up p.run_by_caller g
            (λ h. absurd (omega (arith, h, (g.stopped over).0))) g.producers)
    where
      order : p.queued ≡ (p.taken ++ task ∷ []) ++ tasks
      order = g.in_order ∙ ap (λ l. p.taken ++ l) e ∙ sym (append_assoc p.taken (task ∷ []) tasks)
