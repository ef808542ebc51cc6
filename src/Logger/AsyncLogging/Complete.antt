-- ===== src/Logger/AsyncLogging/Complete.antt =====
-- Every line that was logged is written, or waits in a buffer, in the order of the calls.
use mathlib.Core.List.{append_assoc, append-nil}
use wethands.Prelude.{
  ℕ, ◌+◌, ◌*◌, ◌<◌, refl, List, [], ◌∷◌, ◌++◌, length, length-append, Returns, Returns-bind,
  Returns-both, arith,
}
use wethands.Logger.AsyncLogging.{
  AsyncLogging, new_async_logging, fresh_buffer, append, large_buffer_size, flatten, Event, logs,
  collects, writes_out, step, run,
}
use wethands.Logger.AsyncLogging.Ownership.{
  IsOwned, resting, writing, step_lem, new_async_logging-IsOwned,
}
use wethands.Logger.AsyncLogging.Steps.{
  text, IsComplete, append-IsComplete, collect-IsComplete, write_out-IsComplete,
}

-- The bytes that a schedule logs.
unfoldable pub logged_by : List Event → List ℕ
logged_by [] = []
logged_by (logs line ∷ es) = line ++ logged_by es
logged_by (collects ∷ es) = logged_by es
logged_by (writes_out ∷ es) = logged_by es

-- Each line is shorter than a buffer.
unfoldable pub AreShort : List Event → Type 0
AreShort [] = Unit
AreShort (logs line ∷ es) = (length line < large_buffer_size) × AreShort es
AreShort (collects ∷ es) = AreShort es
AreShort (writes_out ∷ es) = AreShort es

step-collects :
    (a : AsyncLogging) (logged : List ℕ)
    → IsOwned a
    → IsComplete logged a
    → length logged < 8 * large_buffer_size
    → Returns (step a collects) (IsComplete logged)
unfolding step
step-collects a logged (resting buffers current next written used) c small =
    collect-IsComplete logged buffers current next written small c
step-collects a logged (writing buffers current next written first others spare2 used two) c small =
    c

step-writes_out :
    (a : AsyncLogging) (logged : List ℕ)
    → IsOwned a
    → IsComplete logged a
    → Returns (step a writes_out) (IsComplete logged)
unfolding step
step-writes_out a logged (resting buffers current next written used) c = c
step-writes_out a logged (writing buffers current next written first others spare2 used two) c =
    write_out-IsComplete logged buffers current next written first others spare2 two c

run-IsComplete :
    (a : AsyncLogging) (logged : List ℕ) (es : List Event)
    → IsOwned a
    → IsComplete logged a
    → AreShort es
    → length logged + length (logged_by es) < 8 * large_buffer_size
    → Returns (run a es) (IsComplete (logged ++ logged_by es))
unfolding run step logged_by AreShort
run-IsComplete a logged [] v c short small = rw (append-nil logged) c
run-IsComplete a logged (logs line ∷ es) v c short small =
    rw⁻¹ (append_assoc logged line (logged_by es)) (
      Returns-bind (λ a'. IsOwned a' × IsComplete (logged ++ line) a') _ (append a line) _
        (Returns-both IsOwned (IsComplete (logged ++ line)) (append a line)
          (unfold step in step_lem a (logs line) v) (append-IsComplete logged a line v c short.0))
        (λ a' (v', c').
          run-IsComplete a' (logged ++ line) es v' c' short.1
            (omega (arith, length-append logged line, length-append line (logged_by es)))))
run-IsComplete a logged (collects ∷ es) v c short small =
    Returns-bind (λ a'. IsOwned a' × IsComplete logged a') _ (step a collects) _
      (Returns-both IsOwned (IsComplete logged) (step a collects) (step_lem a collects v)
        (step-collects a logged v c (omega arith)))
      (λ a' (v', c'). run-IsComplete a' logged es v' c' short small)
run-IsComplete a logged (writes_out ∷ es) v c short small =
    Returns-bind (λ a'. IsOwned a' × IsComplete logged a') _ (step a writes_out) _
      (Returns-both IsOwned (IsComplete logged) (step a writes_out) (step_lem a writes_out v)
        (step-writes_out a logged v c))
      (λ a' (v', c'). run-IsComplete a' logged es v' c' short small)

new-IsComplete : IsComplete [] new_async_logging
unfolding new_async_logging flatten text fresh_buffer
new-IsComplete = record { whole = refl; spare_empty = refl; dense = omega arith; few = omega arith }

-- While a log runs, and less than 32 megabytes were logged in lines shorter than a buffer: under any
-- schedule of loggers and of the writer, what was written, followed by what is being written and by
-- what the buffers hold, is exactly the lines, in the order of their calls, and the writer never has
-- more than 16 buffers, so that it drops none.
pub run_new-IsComplete :
    (es : List Event)
    → AreShort es
    → length (logged_by es) < 8 * large_buffer_size
    → Returns (run new_async_logging es) (IsComplete (logged_by es))
run_new-IsComplete es short small =
    run-IsComplete new_async_logging [] es new_async_logging-IsOwned new-IsComplete short
      (omega (arith, small))
