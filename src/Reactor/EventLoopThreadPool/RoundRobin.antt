-- ===== src/Reactor/EventLoopThreadPool/RoundRobin.antt =====
-- That the loops of a pool take turns.
use native.Mathlib.Nat.{mod-lt, mod-eq_of_lt, mod-add-mod, mod_self}
use native.Mathlib.Decide.{dec_lt}
use wethands.Prelude.{
  ℕ, zero, suc, ◌+◌, ◌%◌, ◌<◌, ◌≡◌, refl, ap, sym, ◌∙◌, Bool, true, some, List, [], ◌∷◌, ◌==◌,
  length, length-append, get_elem?, get_elem?-append_lt, get_elem?-append_end, if◌then◌else◌, ok,
  ◌>>=◌, arith, Bool-cases, inl, inr, ==_iff,
}
use wethands.Reactor.EventLoopThreadPool.{
  EventLoopThreadPool, new_event_loop_thread_pool, start_loops, start, take_loop, next_loop,
  next_loops,
}

-- The loop for the connection number `i`: the threads in turn, or the base loop if there is none.
unfoldable pub turn {ℓ} : {A : Type ℓ} → A → (ℕ → A) → ℕ → ℕ → A
turn base_loop start_loop num_threads i =
    if num_threads == 0 then base_loop else start_loop (i % num_threads)

-- The loops for `count` connections from the number `i` on.
unfoldable pub turns {ℓ} : {A : Type ℓ} → A → (ℕ → A) → ℕ → ℕ → ℕ → List A
turns base_loop start_loop num_threads i zero = []
turns base_loop start_loop num_threads i (suc count) =
    turn base_loop start_loop num_threads i ∷ turns base_loop start_loop num_threads (i + 1) count

next_mod : (i n : ℕ) → 0 < n → (if (i % n + 1) == n then 0 else (i % n + 1)) ≡ (i + 1) % n
next_mod i n h = elim (Bool-cases ((i % n + 1) == n)) [
  | inl e ↦
      rw e
        (sym (mod_self n) ∙ ap (λ k. k % n) (sym ((==_iff (i % n + 1) n).0 e)) ∙ mod-add-mod i n 1)
  | inr e ↦ rw e (sym (mod-eq_of_lt (ground (arith, mod-lt i h))) ∙ mod-add-mod i n 1)
]

module _ {ℓ} {A : Type ℓ} (start_loop : ℕ → A) where
  length-start_loops : (n : ℕ) → length (start_loops start_loop n) ≡ n
  unfolding start_loops
  length-start_loops zero = refl
  length-start_loops (suc n) =
      omega
        (arith, length-append (start_loops start_loop n) (start_loop n ∷ []), length-start_loops n)

  get_elem?-start_loops :
      (n i : ℕ) → i < n → get_elem? (start_loops start_loop n) i ≡ some (start_loop i)
  unfolding start_loops
  get_elem?-start_loops zero i h = elim h [ ]
  get_elem?-start_loops (suc n) i h = elim (dec_lt i n) [
    | yes l ↦
        get_elem?-append_lt (start_loops start_loop n) _ i (omega (arith, length-start_loops n))
        ∙ get_elem?-start_loops n i l
    | no l ↦
        let last : i ≡ n = omega arith in
        rw last (
          get_elem?-append_end (start_loops start_loop n) (start_loop n) n
            (sym (length-start_loops n)))
  ]

  -- The pool after the connections up to the number `i`.
  record IsAt (base_loop : A) (n i : ℕ) (p : EventLoopThreadPool A) : Type ℓ where
    at_base : p.base_loop ≡ base_loop
    is_started : p.started ≡ true
    at_loops : p.loops ≡ start_loops start_loop n
    at_next : 0 < n → (if p.next == n then 0 else p.next) ≡ i % n

  next_loop-IsAt :
      (base_loop : A) (n i : ℕ) (p : EventLoopThreadPool A)
      → IsAt base_loop n i p
      → (p' : EventLoopThreadPool A) × (next_loop true p ≡ ok (turn base_loop start_loop n i, p'))
        × IsAt base_loop n (i + 1) p'
  unfolding next_loop take_loop turn
  next_loop-IsAt base_loop zero i p v = (
    p,
    ground (arith, v.is_started, v.at_base, ap length v.at_loops, length-start_loops 0),
    record {
      at_base = v.at_base;
      is_started = v.is_started;
      at_loops = v.at_loops;
      at_next = λ h. absurd (omega arith);
    },
  )
  next_loop-IsAt base_loop (suc n) i p v =
      let long : length p.loops ≡ suc n = ap length v.at_loops ∙ length-start_loops (suc n) in
      let found : get_elem? p.loops (i % suc n) ≡ some (start_loop (i % suc n)) =
        ap (λ l. get_elem? l (i % suc n)) v.at_loops
        ∙ get_elem?-start_loops (suc n) (i % suc n) (mod-lt i (omega arith)) in
      (
        record p { next = i % suc n + 1 },
        ground (arith, v.is_started, long, v.at_next (omega arith), found),
        record {
          at_base = v.at_base;
          is_started = v.is_started;
          at_loops = v.at_loops;
          at_next = λ h. next_mod i (suc n) h;
        },
      )

  next_loops-turns :
      (base_loop : A) (n i count : ℕ) (p : EventLoopThreadPool A)
      → IsAt base_loop n i p
      → next_loops count p ≡ ok (turns base_loop start_loop n i count)
  unfolding next_loops turns
  next_loops-turns base_loop n i zero p v = refl
  next_loops-turns base_loop n i (suc count) p v =
      let (p', went, v') = next_loop-IsAt base_loop n i p v in
      rw (went, next_loops-turns base_loop n (i + 1) count p' v')

  -- A pool that is started with any number of threads hands out their loops in turn, one for each
  -- call of `NextLoop`, from the first on; without threads it hands out the base loop each time.
  pub next_loops-eq-turns :
      (base_loop : A) (num_threads count : ℕ) (has_callback : Bool)
      → (start true start_loop num_threads has_callback (new_event_loop_thread_pool base_loop)
          >>= next_loops count)
        ≡ ok (turns base_loop start_loop num_threads 0 count)
  unfolding start new_event_loop_thread_pool
  next_loops-eq-turns base_loop num_threads count has_callback =
      next_loops-turns base_loop num_threads 0 count _ (record {
        at_base = refl;
        is_started = refl;
        at_loops = refl;
        at_next = λ h. ground (arith, mod-eq_of_lt h);
      })
