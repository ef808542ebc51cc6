-- ===== src/Reactor/TimerQueue/Cancel.antt =====
-- `CancelTimer`: what an index still names.
use wethands.Prelude.{
  ℕ, ◌-◌, ◌^◌, ◌<◌, ◌≡◌, ◌≢◌, refl, sym, ap, ◌∙◌, true, false, Option, List, [], ◌∷◌, ◌++◌,
  if◌then◌else◌, Bool-cases, inl, inr, Returns, Returns-map, arith,
}
use wethands.Reactor.Timer.{Timer, restart, add_seconds, TimerIndex, index_of, is_before}
use wethands.Reactor.TimerQueue.{
  TimerQueue, Timespec, is_same, is_empty, has, erase, cancel_timer_in_loop, add_timer_in_loop,
}
use wethands.Reactor.TimerQueue.Order.{Every, Every-map, Every-append, IsDistinct}
use wethands.Reactor.TimerQueue.Run.{IsValid, IsFresh, Added, differs, add_timer_in_loop_lem}

has_none :
    (i : TimerIndex) (xs : List TimerIndex) → Every (λ x. is_same i x ≡ false) xs → has i xs ≡ false
unfolding has Every
has_none i [] h = refl
has_none i (x ∷ xs) (d, h) = rw (d, has_none i xs h) refl

cancel_none :
    (q : TimerQueue) (i : TimerIndex)
    → Every (λ x. is_same i x ≡ false) q.timers
    → cancel_timer_in_loop q i ≡ q
unfolding cancel_timer_in_loop
cancel_none q i h =
    ap
      (λ b.
        if b
        then record q { timers = erase i q.timers; deleted = q.deleted ++ i.sequence ∷ [] }
        else q)
      (has_none i q.timers h)

-- Cancelling an index whose timer is not in the queue changes nothing. So it is for a timer that
-- cancels itself in its callback, when it was taken out already.
pub cancel_absent :
    (q : TimerQueue) (i : TimerIndex) → IsFresh i.sequence q → cancel_timer_in_loop q i ≡ q
cancel_absent q i fresh = cancel_none q i (
    Every-map (λ x. x.sequence ≢ i.sequence) (λ x. is_same i x ≡ false) q.timers
      (λ x d. differs i x d) fresh)

restarted_differs :
    (t : Timer) (now : ℕ)
    → t.repeated ≡ true
    → t.expiration ≢ add_seconds now t.interval
    → is_same (index_of t) (index_of (restart t now)) ≡ false
unfolding is_same is_before restart
restarted_differs t now again moved = ground arith

is_same_self : (i : TimerIndex) → is_same i i ≡ true
unfolding is_same is_before
is_same_self i = ground arith

has-Every :
    (i : TimerIndex) (xs : List TimerIndex) → has i xs ≡ false → Every (λ x. is_same i x ≡ false) xs
unfolding has Every
has-Every i [] h = tt
has-Every i (x ∷ xs) h = (ground (arith, h), has-Every i xs (ground (arith, h)))

-- A timer that was put in is there.
Added-has : (q q' : TimerQueue) (t : Timer) → Added q t q' → has (index_of t) q'.timers ≡ true
Added-has q q' t added = elim (Bool-cases (has (index_of t) q'.timers)) [
  | inl there ↦ there
  | inr missing ↦ absurd (
      ground (
        arith,
        is_same_self (index_of t),
        ((added.every (λ x. is_same (index_of t) x ≡ false)).0
            (has-Every (index_of t) q'.timers missing)).0,
      ))
]

-- Once a timer was put back under another expiration, into a queue that is not empty, cancelling
-- the index that `AddTimer` gave for it changes nothing: the timer is in the queue and stays there.
pub cancel_restarted :
    (clock : ℕ → ℕ) (settime : Timespec → Option ℕ → Option ℕ) (q : TimerQueue) (t : Timer)
    (now : ℕ)
    → IsValid q
    → is_empty q.timers ≡ false
    → IsFresh t.sequence q
    → t.sequence < 2 ^ 63 - 1
    → t.repeated ≡ true
    → t.expiration ≢ add_seconds now t.interval
    → Returns (add_timer_in_loop clock settime q (restart t now)) (λ q'.
      (cancel_timer_in_loop q' (index_of t) ≡ q')
      × (has (index_of (restart t now)) q'.timers ≡ true))
cancel_restarted clock settime q t now v some_there fresh small again moved =
    Returns-map (Added q (restart t now)) _ _
      (add_timer_in_loop_lem clock settime q (restart t now) v (unfold restart in fresh)
        (unfold restart in small) some_there)
      (λ q' added. (
        cancel_none q' (index_of t) (
            (added.every (λ x. is_same (index_of t) x ≡ false)).1 (
              restarted_differs t now again moved,
              Every-map (λ x. x.sequence ≢ t.sequence) (λ x. is_same (index_of t) x ≡ false)
                  q.timers (λ x d. differs (index_of t) x d) fresh,
            )),
        Added-has q q' (restart t now) added,
      ))

found : (i : TimerIndex) (xs ys : List TimerIndex) → has i (xs ++ i ∷ ys) ≡ true
unfolding has
found i [] ys = rw (is_same_self i) refl
found i (x ∷ xs) ys = rw (found i xs ys) (ground arith)

erased :
    (i : TimerIndex) (xs ys : List TimerIndex)
    → IsDistinct (xs ++ i ∷ ys)
    → erase i (xs ++ i ∷ ys) ≡ xs ++ ys
unfolding erase IsDistinct Every
erased i [] ys apart = rw (is_same_self i) refl
erased i (x ∷ xs) ys (differ, apart) =
    rw
      (differs i x
        (λ same. (Every-append (λ y. y.sequence ≢ x.sequence) xs (i ∷ ys) differ).1.0 (sym same)))
      (ap (λ l. x ∷ l) (erased i xs ys apart))

-- Cancelling an index that is in the queue takes out that one and no other, and deletes its timer.
pub cancel_lem :
    (q : TimerQueue) (i : TimerIndex) (xs ys : List TimerIndex)
    → IsValid q
    → q.timers ≡ xs ++ i ∷ ys
    → cancel_timer_in_loop q i
      ≡ record q { timers = xs ++ ys; deleted = q.deleted ++ i.sequence ∷ [] }
unfolding cancel_timer_in_loop
cancel_lem q i xs ys v e =
    ap
      (λ b.
        if b
        then record q { timers = erase i q.timers; deleted = q.deleted ++ i.sequence ∷ [] }
        else q)
      (ap (has i) e ∙ found i xs ys)
    ∙ ap (λ l. record q { timers = l; deleted = q.deleted ++ i.sequence ∷ [] })
        (ap (erase i) e ∙ erased i xs ys (rw⁻¹ e v.distinct))
