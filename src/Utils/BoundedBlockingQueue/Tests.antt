-- ===== src/Utils/BoundedBlockingQueue/Tests.antt =====
-- A schedule with a producer that has to wait.
use wethands.Prelude.{ℕ, ◌≡◌, refl, List, [], ◌∷◌, Returns, ok, arith}
use wethands.Utils.CircularQueue.{
  new_queue, push_back, pop_front, front, is_empty, is_full, store, next_index,
}
use wethands.Utils.BoundedBlockingQueue.{
  Event, calls_put, calls_take, resumes_put, new_monitor, put, take, step, run,
}
use wethands.Thread.Condition.{wait, notify, resume}
use wethands.Utils.BoundedBlockingQueue.Invariant.{Good, run_new-Good}

abbrev exact : ℕ → ℕ
exact n = n

abbrev schedule : List (Event ℕ)
schedule =
    calls_put 1
    ∷ calls_put 2
    ∷ calls_put 3
    ∷ calls_take
    ∷ resumes_put 3
    ∷ calls_take
    ∷ calls_take
    ∷ calls_take
    ∷ calls_put 4
    ∷ []

run-schedule :
    run (new_monitor exact 2) schedule
    ≡ ok (record {
      queue = record {
        begin_index = 1;
        end_index = 0;
        size = 1;
        count = 2;
        vec = 3 ∷ 4 ∷ [];
        cap = 2;
      };
      not_empty = record { asleep = 0; woken = 1 };
      not_full = record { asleep = 0; woken = 0 };
      put_log = 1 ∷ 2 ∷ 3 ∷ 4 ∷ [];
      taken_log = 1 ∷ 2 ∷ 3 ∷ [];
    })
unfolding run step put take wait notify resume new_monitor new_queue push_back pop_front front
    is_empty is_full store next_index
run-schedule = refl

run_new-Good_example : Returns (run (new_monitor exact 2) schedule) (Good 2)
run_new-Good_example = run_new-Good exact 2 schedule (omega arith) (omega arith)
