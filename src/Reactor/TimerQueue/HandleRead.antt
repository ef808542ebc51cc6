-- ===== src/Reactor/TimerQueue/HandleRead.antt =====
-- `HandleRead` as a whole.
use wethands.Prelude.{
  ℕ, ◌+◌, ◌≡◌, ◌≢◌, ◌∙◌, inl, inr, Option, List, [], ◌∷◌, ◌++◌, Result, ok, Returns, false,
  Returns-bind, Bool-cases,
}
use wethands.Reactor.Timer.{TimerIndex}
use wethands.Reactor.TimerQueue.{
  TimerQueue, Timespec, sentry, before, from_lower_bound, get_expired, rearm, handle_read, is_empty,
}
use wethands.Reactor.TimerQueue.Order.{
  Every, Every-append, IsSorted, IsSequence, IsDistinct, before-append-from_lower_bound,
}
use wethands.Reactor.TimerQueue.Run.{Owned, IsValid, update_timerfd_lem, first_expiration_lem}
use wethands.Reactor.TimerQueue.Expire.{Ran, Apart, run_expired_lem}

IsSorted-rest : (xs ys : List TimerIndex) → IsSorted (xs ++ ys) → IsSorted ys
unfolding IsSorted
IsSorted-rest [] ys sorted = sorted
IsSorted-rest (x ∷ xs) ys sorted = IsSorted-rest xs ys sorted.1

IsDistinct-parts :
    (xs ys : List TimerIndex)
    → IsDistinct (xs ++ ys)
    → IsDistinct xs × IsDistinct ys × Every (λ x. Every (λ y. y.sequence ≢ x.sequence) ys) xs
unfolding IsDistinct Every
IsDistinct-parts [] ys apart = (tt, apart, tt)
IsDistinct-parts (x ∷ xs) ys (differ, apart) =
    let (front, back, across) = IsDistinct-parts xs ys apart in
    let (in_front, in_back) = Every-append (λ y. y.sequence ≢ x.sequence) xs ys differ in
    ((in_front, front), back, (in_back, across))

-- Both parts of a valid queue that was split.
split_lem :
    (q : TimerQueue) (due rest : List TimerIndex)
    → due ++ rest ≡ q.timers
    → IsValid q
    → IsValid (record q { timers = rest }) × Apart due (record q { timers = rest })
split_lem q due rest e v =
    let parts = IsDistinct-parts due rest (rw e v.distinct) in
    let sequences = Every-append IsSequence due rest (rw e v.sequences) in
    let owned = Every-append Owned due rest (rw e v.owned) in
    (
      record {
        sorted = IsSorted-rest due rest (rw e v.sorted);
        distinct = parts.1;
        sequences = sequences.1;
        owned = owned.1;
      },
      record { fresh = parts.2; distinct = parts.0; sequences = sequences.0; owned = owned.0 },
    )

-- A queue with the same timers and records is as good.
Ran-same :
    (now : ℕ) (due : List TimerIndex) (q a b : TimerQueue)
    → (b.timers ≡ a.timers) × (b.ran ≡ a.ran) × (b.deleted ≡ a.deleted)
    → Ran now due q a
    → Ran now due q b
Ran-same now due q a b (timers, ran, deleted) r = record {
  valid = record {
    sorted = rw timers r.valid.sorted;
    distinct = rw timers r.valid.distinct;
    sequences = rw timers r.valid.sequences;
    owned = rw timers r.valid.owned;
  };
  ran = ran ∙ r.ran;
  deleted = deleted ∙ r.deleted;
  every = λ P. rw timers (r.every P);
}

-- What `handle_read` makes of a queue: it takes out the timers that are due and runs them.
abbrev pub HandledRead : (ℕ → ℕ) → TimerQueue → TimerQueue → Type 1
HandledRead clock q q' =
    let now = clock q.readings in
    let taken = get_expired (record q { readings = q.readings + 1 }) now in
    Ran now taken.0 taken.1 q'

module _ (clock : ℕ → ℕ) (settime : Timespec → Option ℕ → Option ℕ)
    (callback : ℕ → TimerQueue → Result TimerQueue)
    (quiet : (k : ℕ) (q : TimerQueue) → callback k q ≡ ok q) where
  rearm_lem :
      (now : ℕ) (due : List TimerIndex) (q q' : TimerQueue)
      → Ran now due q q'
      → Returns (rearm clock settime callback q') (Ran now due q)
  unfolding rearm
  rearm_lem now due q q' ran = elim (Bool-cases (is_empty q'.timers)) [
    | inr some_left ↦
        let (first, goes) = first_expiration_lem q'.timers some_left in
        rw (some_left, goes)
          (Ran-same now due q q' _ (update_timerfd_lem clock settime q' first) ran)
    | inl none_left ↦ rw none_left ran
  ]

  -- On a valid queue with some timer that is not due, and whose callbacks do not call the queue,
  -- `handle_read` faults in no way and leaves a valid queue. It runs each timer that is due once, in
  -- their order; the ones that repeat are put back under their next expiration, the others are
  -- deleted, and the timers that are not due stay.
  pub handle_read-HandledRead :
      (q : TimerQueue)
      → IsValid q
      → is_empty (from_lower_bound (sentry (clock q.readings)) q.timers) ≡ false
      → Returns (handle_read clock settime callback q) (HandledRead clock q)
  unfolding handle_read get_expired
  handle_read-HandledRead q v some_later =
      let now = clock q.readings in
      let due = before (sentry now) q.timers in
      let rest = from_lower_bound (sentry now) q.timers in
      let (valid, apart) =
        split_lem (record q { readings = q.readings + 1 }) due rest
          (before-append-from_lower_bound (sentry now) q.timers)
          (record {
            sorted = v.sorted;
            distinct = v.distinct;
            sequences = v.sequences;
            owned = v.owned;
          }) in
      Returns-bind (Ran now due _) (HandledRead clock q) _ _
        (run_expired_lem clock settime callback quiet now due _ valid apart some_later)
        (λ q' ran. rearm_lem now due _ q' ran)
