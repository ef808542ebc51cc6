-- ===== src/Reactor/TimerQueue/Expire.antt =====
-- `HandleRead`: each due timer runs once, in order, and is then put back or deleted.
use mathlib.Core.List.{append_assoc, append-nil}
use wethands.Prelude.{
  ℕ, ◌-◌, ◌^◌, ◌<◌, ◌≡◌, ◌≢◌, ◌↔◌, refl, sym, ap, ◌∙◌, inl, inr, true, false, Option, none, some,
  List, [], ◌∷◌, ◌++◌, map, if◌then◌else◌, Result, ok, Returns, Returns-bind, Returns-if,
  Returns-map, Never, arith, Bool-cases,
}
use wethands.Reactor.Timer.{Timer, restart, TimerIndex, index_of}
use wethands.Reactor.TimerQueue.{TimerQueue, Timespec, is_empty, run_timer, run_index, run_expired}
use wethands.Reactor.TimerQueue.Order.{Every, Every-map2, IsSequence, IsDistinct}
use wethands.Reactor.TimerQueue.Run.{Owned, IsValid, IsFresh, Added, add_timer_in_loop_lem}

-- The sequence numbers of the timers that are not put back.
unfoldable pub finished : List TimerIndex → List ℕ
finished [] = []
finished (i ∷ is) =
    let rest = finished is in
    elim i.timer [ none ↦ rest | some t ↦ if t.repeated then rest else t.sequence ∷ rest ]

pub finished_again :
    (t : Timer) (is : List TimerIndex)
    → t.repeated ≡ true
    → finished (index_of t ∷ is) ≡ finished is
unfolding finished
finished_again t is h = ap (λ b. if b then finished is else t.sequence ∷ finished is) h

pub finished_once :
    (t : Timer) (is : List TimerIndex)
    → t.repeated ≡ false
    → finished (index_of t ∷ is) ≡ t.sequence ∷ finished is
unfolding finished
finished_once t is h = ap (λ b. if b then finished is else t.sequence ∷ finished is) h

finished-append :
    (i : TimerIndex) (is : List TimerIndex)
    → Owned i
    → finished (i ∷ is) ≡ finished (i ∷ []) ++ finished is
finished-append i is (t, e) = rw e (elim (Bool-cases t.repeated) [
  | inl again ↦ rw (finished_again t is again, finished_again t [] again) nothing
  | inr once ↦
      rw (finished_once t is once, finished_once t [] once) (ap (λ l. t.sequence ∷ l) nothing)
])
  where
    nothing : finished is ≡ finished [] ++ finished is
    nothing = unfold finished in refl

-- What holds of the index under which a timer is put back, if it is.
unfoldable pub PutBackAs : ℕ → (TimerIndex → Type 0) → Option Timer → Type 0
PutBackAs now P none = Unit
PutBackAs now P (some t) = t.repeated ≡ true → P (index_of (restart t now))

abbrev pub PutBack : ℕ → (TimerIndex → Type 0) → TimerIndex → Type 0
PutBack now P i = PutBackAs now P i.timer

-- What running due timers makes of the queue: `HandleRead` up to the last test.
pub record Ran (now : ℕ) (due : List TimerIndex) (q q' : TimerQueue) : Type 1 where
  pub valid : IsValid q'
  pub ran : q'.ran ≡ q.ran ++ map (λ i. i.sequence) due
  pub deleted : q'.deleted ≡ q.deleted ++ finished due
  pub every :
      (P : TimerIndex → Type 0) → Every P q'.timers ↔ (Every P q.timers × Every (PutBack now P) due)

-- Due timers have numbers of their own, apart from those in the queue.
pub record Apart (due : List TimerIndex) (q : TimerQueue) : Type 0 where
  pub fresh : Every (λ i. IsFresh i.sequence q) due
  pub distinct : IsDistinct due
  pub sequences : Every IsSequence due
  pub owned : Every Owned due

module _ (clock : ℕ → ℕ) (settime : Timespec → Option ℕ → Option ℕ)
    (callback : ℕ → TimerQueue → Result TimerQueue)
    (quiet : (k : ℕ) (q : TimerQueue) → callback k q ≡ ok q) (now : ℕ) where
  abbrev noted : TimerQueue → ℕ → TimerQueue
  noted q s = record q { ran = q.ran ++ s ∷ [] }

  restart-sequence : (t : Timer) → (restart t now).sequence ≡ t.sequence
  unfolding restart
  restart-sequence t = refl

  noted-IsValid : (q : TimerQueue) (s : ℕ) → IsValid q → IsValid (noted q s)
  noted-IsValid q s v = record {
    sorted = v.sorted;
    distinct = v.distinct;
    sequences = v.sequences;
    owned = v.owned;
  }

  -- A timer that repeats is put back, and one that does not is deleted.
  put_back :
      (q q' : TimerQueue) (t : Timer)
      → t.repeated ≡ true
      → Added (noted q t.sequence) (restart t now) q'
      → Ran now (index_of t ∷ []) q q'
  unfolding Every PutBackAs
  put_back q q' t again added = record {
    valid = added.valid;
    ran = added.same_ran;
    deleted = added.same_deleted ∙ sym (nothing_finished q.deleted);
    every = λ P. (
      λ e. (((added.every P).0 e).1, ((λ repeats. ((added.every P).0 e).0), tt)),
      λ e. (added.every P).1 (e.1.0 again, e.0),
    );
  }
    where
      nothing_finished : (xs : List ℕ) → xs ++ finished (index_of t ∷ []) ≡ xs
      nothing_finished xs = rw (finished_again t [] again) (unfold finished in append-nil xs)

  thrown_away :
      (q : TimerQueue) (t : Timer)
      → t.repeated ≡ false
      → IsValid q
      → Ran now
          (index_of t ∷ [])
          q
          (record (noted q t.sequence) { deleted = q.deleted ++ t.sequence ∷ [] })
  unfolding Every PutBackAs
  thrown_away q t once v = record {
    valid = record {
      sorted = v.sorted;
      distinct = v.distinct;
      sequences = v.sequences;
      owned = v.owned;
    };
    ran = refl;
    deleted = ap (λ l. q.deleted ++ l) (sym (finished_once t [] once ∙ (unfold finished in refl)));
    every = λ P. (λ e. (e, ((λ repeats. absurd (ground (arith, once, repeats))), tt)), λ e. e.0);
  }

  run_timer_lem :
      (q : TimerQueue) (t : Timer)
      → IsValid q
      → IsFresh t.sequence q
      → t.sequence < 2 ^ 63 - 1
      → is_empty q.timers ≡ false
      → Returns (run_timer clock settime callback now q t) (Ran now (index_of t ∷ []) q)
  unfolding run_timer
  run_timer_lem q t v fresh small some_there = rw (quiet t.callback (noted q t.sequence)) (
      Returns-if (Ran now (index_of t ∷ []) q) t.repeated _ _
        (λ again.
          Returns-map (Added (noted q t.sequence) (restart t now)) (Ran now (index_of t ∷ []) q) _
            (add_timer_in_loop_lem clock settime (noted q t.sequence) (restart t now)
              (noted-IsValid q t.sequence v) (rw (restart-sequence t) fresh)
              (rw (restart-sequence t) small) some_there)
            (λ q' added. put_back q q' t again added))
        (λ once. thrown_away q t once v))

  run_index_lem :
      (q : TimerQueue) (i : TimerIndex)
      → Owned i
      → IsValid q
      → IsFresh i.sequence q
      → IsSequence i
      → is_empty q.timers ≡ false
      → Returns (run_index clock settime callback now q i) (Ran now (i ∷ []) q)
  unfolding run_index
  run_index_lem q i (t, e) v =
      rw e (λ fresh small some_there. run_timer_lem q t v fresh small some_there)

  -- One timer and then the others.
  Ran-append :
      (i : TimerIndex) (is : List TimerIndex) (q q₁ q₂ : TimerQueue)
      → Owned i
      → Ran now (i ∷ []) q q₁
      → Ran now is q₁ q₂
      → Ran now (i ∷ is) q q₂
  unfolding Every
  Ran-append i is q q₁ q₂ owned one others = record {
    valid = others.valid;
    ran =
        others.ran
        ∙ ap (λ l. l ++ map (λ j. j.sequence) is) one.ran
        ∙ append_assoc q.ran (i.sequence ∷ []) (map (λ j. j.sequence) is);
    deleted =
        others.deleted
        ∙ ap (λ l. l ++ finished is) one.deleted
        ∙ append_assoc q.deleted (finished (i ∷ [])) (finished is)
        ∙ ap (λ l. q.deleted ++ l) (sym (finished-append i is owned));
    every = λ P. (
      λ e.
          let others_before = (others.every P).0 e in
          let one_before = (one.every P).0 others_before.0 in
          (one_before.0, (one_before.1.0, others_before.1)),
      λ e. (others.every P).1 ((one.every P).1 (e.0, (e.1.0, tt)), e.1.1),
    );
  }

  -- The timers that follow stay apart from a queue in which one timer was put back.
  Ran-Apart :
      (i : TimerIndex) (is : List TimerIndex) (q q' : TimerQueue)
      → Owned i
      → Apart (i ∷ is) q
      → Ran now (i ∷ []) q q'
      → Apart is q'
  unfolding Every IsDistinct PutBackAs
  Ran-Apart i is q q' (t, e) apart one = record {
    fresh =
        Every-map2 (λ j. IsFresh j.sequence q) (λ j. j.sequence ≢ i.sequence)
          (λ j. IsFresh j.sequence q') is
          (λ j f d. (one.every (λ x. x.sequence ≢ j.sequence)).1 (f, (back j d, tt))) apart.fresh.1
          apart.distinct.0;
    distinct = apart.distinct.1;
    sequences = apart.sequences.1;
    owned = apart.owned.1;
  }
    where
      back :
          (j : TimerIndex) → j.sequence ≢ i.sequence → PutBack now (λ x. x.sequence ≢ j.sequence) i
      back j = rw e (λ d repeats same. d (sym same ∙ restart-sequence t))

  -- Running due timers leaves no queue empty that was not.
  Ran-occupied :
      (due : List TimerIndex) (q q' : TimerQueue)
      → Ran now due q q'
      → is_empty q.timers ≡ false
      → is_empty q'.timers ≡ false
  unfolding Every is_empty PutBackAs
  Ran-occupied due q q' ran some_there = elim (Bool-cases (is_empty q'.timers)) [
    | inr still ↦ still
    | inl none_left ↦
        elim (no_timer q.timers ((ran.every (λ i. Never)).0 (no_timer-of q'.timers none_left)).0
          some_there) [ ]
  ]
    where
      no_timer :
          (xs : List TimerIndex) → Every (λ i. Never {0}) xs → is_empty xs ≡ false → Never {0}
      no_timer [] h e = absurd (cc e)
      no_timer (x ∷ xs) h e = h.0

      no_timer-of : (xs : List TimerIndex) → is_empty xs ≡ true → Every (λ i. Never {0}) xs
      no_timer-of [] e = tt
      no_timer-of (x ∷ xs) e = absurd (cc e)

  pub run_expired_lem :
      (due : List TimerIndex) (q : TimerQueue)
      → IsValid q
      → Apart due q
      → is_empty q.timers ≡ false
      → Returns (run_expired clock settime callback now q due) (Ran now due q)
  unfolding run_expired
  run_expired_lem [] q v apart some_there = record {
    valid = v;
    ran = sym (append-nil q.ran);
    deleted = unfold finished in sym (append-nil q.deleted);
    every = λ P. unfold Every in (λ e. (e, tt), λ e. e.0);
  }
  run_expired_lem (i ∷ is) q v apart some_there =
      Returns-bind (Ran now (i ∷ []) q) (Ran now (i ∷ is) q) _ _
        (run_index_lem q i first_owned v (unfold Every in apart.fresh.0)
          (unfold Every in apart.sequences.0) some_there)
        (λ q' one.
          Returns-map (Ran now is q') (Ran now (i ∷ is) q) _
            (run_expired_lem is q' one.valid (Ran-Apart i is q q' first_owned apart one)
              (Ran-occupied (i ∷ []) q q' one some_there))
            (λ q'' others. Ran-append i is q q' q'' first_owned one others))
    where
      first_owned : Owned i
      first_owned = unfold Every in apart.owned.0
