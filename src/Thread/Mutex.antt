-- ===== src/Thread/Mutex.antt =====
-- src/thread/Mutex.h, with `Wait` of src/thread/Condition.h: who holds a lock, and whom the lock
-- names as its holder. A thread is its id, above 0. A step is a call of pthread or an assignment to
-- `holder_`, so that other threads may come between any two of them.
pub mod Exclusive
mod Tests
use wethands.Prelude.{
  ℕ, Bool, true, false, ◌&&◌, Option, none, some, List, [], ◌∷◌, ltb, ◌==◌, if◌then◌else◌, Result,
  ok, assert, ◌>>=◌, ◌>>◌,
}

-- Where a thread is: outside; after `pthread_mutex_lock` or `pthread_cond_wait` and before
-- `AssignHolder`; in its critical section; in `Unlock` after `UnassignHolder`; in `Wait` after
-- `UnassignHolder`; and asleep in `pthread_cond_wait`.
pub data Place : Type 0 where
  outside acquired inside releasing preparing asleep : Place

pub record MutexLock : Type 0 where
  -- The thread that has the pthread mutex.
  pub owner : Option ℕ
  pub holder : ℕ
  pub places : ℕ → Place

unfoldable pub new_mutex_lock : MutexLock
new_mutex_lock = record { owner = none; holder = 0; places = λ t. outside }

unfoldable pub locked_by_this_thread : MutexLock → ℕ → Bool
locked_by_this_thread m t = m.holder == t

unfoldable pub go_to : ℕ → Place → MutexLock → MutexLock
go_to t place m = record m { places = λ u. if u == t then place else m.places u }

-- `pthread_mutex_lock`, and the end of `pthread_cond_wait`: the caller blocks while the mutex is
-- taken.
unfoldable pub acquire : ℕ → MutexLock → MutexLock
acquire t m = elim m.owner [ none ↦ go_to t acquired (record m { owner = some t }) | some u ↦ m ]

unfoldable pub assign_holder : ℕ → MutexLock → MutexLock
assign_holder t m = go_to t inside (record m { holder = t })

-- `UnassignHolder`, after which the thread unlocks or waits.
unfoldable pub unassign_holder : ℕ → Place → MutexLock → MutexLock
unassign_holder t place m = go_to t place (record m { holder = 0 })

-- The mutex is free again: `pthread_mutex_unlock`, and the beginning of `pthread_cond_wait`.
unfoldable pub release : ℕ → Place → MutexLock → MutexLock
release t place m = go_to t place (record m { owner = none })

-- `Wait` of a condition asserts that its caller holds the lock.
unfoldable pub begin_wait : ℕ → MutexLock → Result MutexLock
begin_wait t m = do assert (locked_by_this_thread m t); ok (unassign_holder t preparing m)

-- What a thread does next: it goes on, or, in its critical section, begins to wait on a condition.
pub data Event : Type 0 where
  goes_on waits : ℕ → Event

unfoldable pub advance : ℕ → MutexLock → Place → MutexLock
advance t m outside = acquire t m
advance t m acquired = assign_holder t m
advance t m inside = unassign_holder t releasing m
advance t m releasing = release t outside m
advance t m preparing = release t asleep m
advance t m asleep = acquire t m

unfoldable pub is_inside : Place → Bool
is_inside inside = true
is_inside _ = false

unfoldable pub step : MutexLock → Event → Result MutexLock
step m (goes_on t) = ok (if ltb 0 t then advance t m (m.places t) else m)
step m (waits t) = if ltb 0 t && is_inside (m.places t) then begin_wait t m else ok m

unfoldable pub run : MutexLock → List Event → Result MutexLock
run m [] = ok m
run m (e ∷ es) = step m e >>= λ m'. run m' es
