-- ===== src/Thread/Mutex/Exclusive.antt =====
-- One thread at most is in its critical section, and it is the one that the lock names.
use wethands.Prelude.{
  ℕ, ◌<◌, ◌≡◌, refl, ap, Bool, true, false, Option, none, some, List, [], ◌∷◌, ltb, ◌==◌, ◌&&◌, ok,
  Returns, Returns-bind, Returns-if, if_lem, Option-cases, inl, inr, ==_iff, ltb→lt, arith,
}
use wethands.Thread.Mutex.{
  Place, outside, acquired, inside, releasing, preparing, asleep, MutexLock, new_mutex_lock,
  locked_by_this_thread, go_to, acquire, assign_holder, unassign_holder, release, begin_wait, Event,
  goes_on, waits, advance, is_inside, step, run,
}

-- Does a thread at this place have the mutex?
unfoldable pub has_mutex : Place → Bool
has_mutex outside = false
has_mutex acquired = true
has_mutex inside = true
has_mutex releasing = true
has_mutex preparing = true
has_mutex asleep = false

unfoldable pub is_owner : ℕ → Option ℕ → Bool
is_owner t none = false
is_owner t (some u) = t == u

pub record IsExclusive (m : MutexLock) : Type 0 where
  pub owned : (t : ℕ) → has_mutex (m.places t) ≡ is_owner t m.owner
  pub named : (t : ℕ) → 0 < t → locked_by_this_thread m t ≡ is_inside (m.places t)

-- Who is in the critical section has the mutex.
has_mutex-inside : (p : Place) → is_inside p ≡ true → has_mutex p ≡ true
unfolding is_inside has_mutex
has_mutex-inside p h = ground arith

is_inside-eq : (p : Place) → is_inside p ≡ true → p ≡ inside
unfolding is_inside
is_inside-eq p h = ground arith

module _ (m : MutexLock) (v : IsExclusive m) (t : ℕ) (real : 0 < t) where
  acquire-IsExclusive : has_mutex (m.places t) ≡ false → IsExclusive (acquire t m)
  unfolding acquire go_to is_owner is_inside has_mutex locked_by_this_thread
  acquire-IsExclusive free = elim (Option-cases m.owner) [
    | inl none_there ↦
        rw (acquire, none_there)
          (record {
            owned = λ u. ground (arith, v.owned u, none_there, ==_iff u t);
            named =
                λ u h. ground (arith, v.named u h, free, ==_iff u t, has_mutex-inside (m.places t));
          })
    | inr (u, some_there) ↦ rw (acquire, some_there) v
  ]

  assign-IsExclusive : m.places t ≡ acquired → IsExclusive (assign_holder t m)
  unfolding assign_holder go_to is_owner is_inside has_mutex locked_by_this_thread
  assign-IsExclusive at_t = record {
    owned = λ u. ground (arith, v.owned u, v.owned t, at_t, ==_iff u t);
    named = λ u h. ground (arith, v.owned u, v.owned t, v.named u h, at_t, ==_iff u t);
  }

  unassign-IsExclusive :
      (place : Place)
      → m.places t ≡ inside
      → has_mutex place ≡ true
      → is_inside place ≡ false
      → IsExclusive (unassign_holder t place m)
  unfolding unassign_holder go_to is_owner is_inside has_mutex locked_by_this_thread
  unassign-IsExclusive place at_t keeps leaves = record {
    owned = λ u. ground (arith, v.owned u, v.owned t, at_t, ==_iff u t);
    named = λ u h. ground (
      arith,
      v.named u h,
      v.named t real,
      at_t,
      leaves,
      ==_iff u t,
      ==_iff m.holder u,
      ==_iff m.holder t,
    );
  }

  release-IsExclusive :
      (place : Place)
      → has_mutex (m.places t) ≡ true
      → is_inside (m.places t) ≡ false
      → has_mutex place ≡ false
      → is_inside place ≡ false
      → IsExclusive (release t place m)
  unfolding release go_to is_owner is_inside has_mutex locked_by_this_thread
  release-IsExclusive place has out frees leaves = record {
    owned = λ u. ground (arith, v.owned u, v.owned t, frees, has, ==_iff u t);
    named = λ u h. ground (arith, v.named u h, v.named t real, out, leaves, ==_iff u t);
  }

  advance-IsExclusive : (p : Place) → m.places t ≡ p → IsExclusive (advance t m p)
  unfolding advance has_mutex is_inside
  advance-IsExclusive outside e = acquire-IsExclusive (ap has_mutex e)
  advance-IsExclusive acquired e = assign-IsExclusive e
  advance-IsExclusive inside e = unassign-IsExclusive releasing e refl refl
  advance-IsExclusive releasing e =
      release-IsExclusive outside (ap has_mutex e) (ap is_inside e) refl refl
  advance-IsExclusive preparing e =
      release-IsExclusive asleep (ap has_mutex e) (ap is_inside e) refl refl
  advance-IsExclusive asleep e = acquire-IsExclusive (ap has_mutex e)

  begin_wait-IsExclusive : is_inside (m.places t) ≡ true → Returns (begin_wait t m) IsExclusive
  unfolding begin_wait
  begin_wait-IsExclusive h =
      rw (v.named t real, h)
        (unassign-IsExclusive preparing (is_inside-eq (m.places t) h) (unfold has_mutex in refl)
          (unfold is_inside in refl))

step-IsExclusive : (m : MutexLock) (e : Event) → IsExclusive m → Returns (step m e) IsExclusive
unfolding step
step-IsExclusive m (goes_on t) v =
    if_lem IsExclusive (ltb 0 t) _ m
      (λ real. advance-IsExclusive m v t (ltb→lt 0 t real) (m.places t) refl) (λ unreal. v)
step-IsExclusive m (waits t) v =
    Returns-if IsExclusive (ltb 0 t && is_inside (m.places t)) _ (ok m)
      (λ both. begin_wait-IsExclusive m v t (ground arith) (ground arith)) (λ other. v)

run-IsExclusive : (m : MutexLock) (es : List Event) → IsExclusive m → Returns (run m es) IsExclusive
unfolding run
run-IsExclusive m [] v = v
run-IsExclusive m (e ∷ es) v =
    Returns-bind IsExclusive IsExclusive (step m e) (λ m'. run m' es) (step-IsExclusive m e v)
      (λ m' v'. run-IsExclusive m' es v')

new_mutex_lock-IsExclusive : IsExclusive new_mutex_lock
unfolding new_mutex_lock has_mutex is_owner is_inside locked_by_this_thread
new_mutex_lock-IsExclusive = record { owned = λ t. refl; named = λ t h. ground arith }

-- Under any schedule of threads that lock, unlock and wait on conditions, with the steps of their
-- calls in any order: the assertion of `Wait` never fails; a thread has the mutex exactly while it
-- is its owner, so that two never have it at once; and `LockedByThisThread` is true of a thread
-- exactly while it is in its critical section.
pub run_new-IsExclusive : (es : List Event) → Returns (run new_mutex_lock es) IsExclusive
run_new-IsExclusive es = run-IsExclusive new_mutex_lock es new_mutex_lock-IsExclusive
