-- ===== src/Thread/Mutex/Tests.antt =====
-- Two threads: the first waits on a condition, the second locks meanwhile.
use wethands.Prelude.{List, [], ◌∷◌, Returns}
use wethands.Thread.Mutex.{Event, goes_on, waits, new_mutex_lock, run}
use wethands.Thread.Mutex.Exclusive.{IsExclusive, run_new-IsExclusive}

abbrev events : List Event
events =
    goes_on 1 ∷ goes_on 2 ∷ goes_on 1 ∷ waits 1 ∷ goes_on 1 ∷ goes_on 2 ∷ goes_on 2 ∷ goes_on 1 ∷ []

run_new-IsExclusive_example : Returns (run new_mutex_lock events) IsExclusive
run_new-IsExclusive_example = run_new-IsExclusive events
