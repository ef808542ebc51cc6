-- ===== src/Reactor/EventLoopThread/Live.antt =====
-- `StartLoop` returns once both threads have gone on long enough.
use mathlib.Core.Path.{subst}
use wethands.Prelude.{
  List, [], ◌∷◌, ◌++◌, Returns-bind, Returns-map, ◌>>=◌, ℕ, ◌<◌, ◌≡◌, refl, ap, sym, ◌∙◌, Bool,
  true, false, some, ok, Returns, arith,
}
use wethands.Reactor.EventLoopThread.{
  looping, returned, EventLoopThread, start_loop, run_in_thread, Event, parent_goes_on,
  child_goes_on, step, run, new_event_loop_thread,
}
use wethands.Reactor.EventLoopThread.Handshake.{is_unborn, is_returned, IsSoundAt, IsSound}
use wethands.Prelude.{◌≤◌, Result, fault, replicate, zero, suc, Returns-both}
use wethands.Reactor.EventLoopThread.Returned.{step-IsSound, run_thread-IsSound}
use wethands.Reactor.EventLoopThread.Nearer.{
  child_left, parent_left, child_left-zero, parent_left-zero, run_in_thread-nearer, child_left-le,
  parent_left-le, start_loop-nearer, start_loop-inside, WentIn,
}
use wethands.Prelude.{zero, suc, fault, Result, replicate, Returns-both, ◌≤◌}

-- One step of `StartLoop`, five of the new thread and three more of `StartLoop`.
abbrev pub to_the_end : List Event
to_the_end = parent_goes_on ∷ replicate 5 child_goes_on ++ replicate 3 parent_goes_on

module _ (tid address : ℕ) (real : 0 < tid) where
  abbrev HasReturned : EventLoopThread → Type 0
  HasReturned t = (t.parent ≡ returned) × (t.result ≡ some address)

  run-append :
      (t : EventLoopThread) (es fs : List Event)
      → run true tid address t (es ++ fs)
        ≡ (run true tid address t es >>= λ t'. run true tid address t' fs)
  unfolding run
  run-append t [] fs = refl
  run-append t (e ∷ es) fs = go (step true tid address t e) (λ t'. run-append t' es fs)
    where
      go :
          (r : Result EventLoopThread)
          → ((t' : EventLoopThread)
              → run true tid address t' (es ++ fs)
                ≡ (run true tid address t' es >>= λ t''. run true tid address t'' fs))
          → (r >>= λ t'. run true tid address t' (es ++ fs))
            ≡ (r >>= (λ t'. run true tid address t' es) >>= λ t'. run true tid address t' fs)
      go (ok t') later = later t'
      go (fault e') later = refl

  abbrev IsNear : ℕ → EventLoopThread → Type 0
  IsNear n t = (t.child ≡ looping) × (parent_left t.parent ≤ n)

  run-parent :
      (n : ℕ) (t : EventLoopThread)
      → IsSound tid address t
      → t.child ≡ looping
      → parent_left t.parent ≤ n
      → Returns (run true tid address t (replicate n parent_goes_on)) HasReturned
  unfolding run step is_returned
  run-parent zero t v l near =
      let ended = parent_left-zero t.parent (omega arith) in
      (ended, (v.loops (subst (λ p. is_returned p ≡ true) (sym ended) refl)).1)
  run-parent (suc n) t v l near =
      Returns-bind (λ t'. IsSound tid address t' × (IsNear n t')) HasReturned
        (start_loop true t t.parent) _
        (Returns-both (IsSound tid address) (IsNear n) (start_loop true t t.parent)
          (unfold step in step-IsSound tid address real t parent_goes_on v)
          (Returns-map _ (IsNear n) _
            (start_loop-nearer tid address real t t.parent refl l
              (subst (λ c. IsSoundAt tid address c t.parent t) l v))
            (λ t' (l', near'). (l', omega arith))))
        (λ t' (v', near'). run-parent n t' v' near'.0 near'.1)

  run-child :
      (n : ℕ) (fs : List Event) (t : EventLoopThread)
      → IsSound tid address t
      → is_unborn t.child ≡ false
      → child_left t.child ≤ n
      → ((t' : EventLoopThread)
          → IsSound tid address t'
          → t'.child ≡ looping
          → Returns (run true tid address t' fs) HasReturned)
      → Returns (run true tid address t (replicate n child_goes_on ++ fs)) HasReturned
  unfolding run step
  run-child zero fs t v there near k = k t v (child_left-zero t.child (omega arith))
  run-child (suc n) fs t v there near k =
      let (there', near') = run_in_thread-nearer tid address t t.child refl there in
      run-child n fs (run_in_thread tid address t t.child)
        (step-IsSound tid address real t child_goes_on v) there' (omega arith) k

  run-to_the_end :
      (t : EventLoopThread)
      → IsSound tid address t
      → Returns (run true tid address t to_the_end) HasReturned
  unfolding run step is_unborn
  run-to_the_end t v =
      Returns-bind (λ t'. IsSound tid address t' × WentIn t') HasReturned
        (start_loop true t t.parent) _
        (Returns-both (IsSound tid address) WentIn (start_loop true t t.parent)
          (unfold step in step-IsSound tid address real t parent_goes_on v)
          (start_loop-inside tid address real t t.parent refl v))
        (λ t' (v', inside_).
          let there = v'.births ∙ inside_ in
          run-child 5 (replicate 3 parent_goes_on) t' v' there (child_left-le t'.child there)
            (λ u w l. run-parent 3 u w l (parent_left-le u.parent (sym w.births ∙ ap is_unborn l))))

  -- From any state that the two threads can reach, also with spurious wakeups, `StartLoop` returns
  -- the address of the loop once it has gone on one step, then the new thread five and then it three:
  -- no wakeup is lost between them, and neither waits for ever.
  pub run_thread-returns :
      (has_init_callback : Bool) (name : List ℕ) (num : ℕ) (es : List Event)
      → Returns
          (run true tid address
            (new_event_loop_thread has_init_callback name num)
            (es ++ to_the_end))
          (λ t. (t.parent ≡ returned) × (t.result ≡ some address))
  run_thread-returns has_init_callback name num es =
      rw (run-append (new_event_loop_thread has_init_callback name num) es to_the_end) (
        Returns-bind (IsSound tid address) HasReturned _ _
          (run_thread-IsSound tid address real has_init_callback name num es) run-to_the_end)
