-- ===== src/Thread/Thread.antt =====
-- src/thread/Thread.h and Thread.cc: a thread that is created and waited for. The steps of `Start`
-- in the thread that calls it and those of `RunInThread` in the new one are functions of their own;
-- src/reactor/EventLoopThread.cc is a user of them, and its model interleaves them.
use wethands.Prelude.{
  ℕ, Bool, true, false, not, ◌&&◌, List, [], ◌∷◌, ltb, if◌then◌else◌, Result, ok, fault, aborted,
  assert, ◌>>◌,
}
use wethands.Prelude.Decimal.{decimal}
use wethands.Prelude.Int.{pos}
use wethands.Thread.CountDownLatch.{CountDownLatch, new_count_down_latch, count_down}

pub record Thread : Type 0 where
  pub name : List ℕ
  pub started : Bool
  pub joined : Bool
  pub tid : ℕ
  pub latch : CountDownLatch
  -- `CurrentThread::t_name` of the new thread.
  pub t_name : List ℕ

-- "Thread<num>" for a thread without a name.
unfoldable pub name_or_number : List ℕ → ℕ → List ℕ
name_or_number [] num = 84 ∷ 104 ∷ 114 ∷ 101 ∷ 97 ∷ 100 ∷ decimal num
name_or_number (x ∷ name) num = x ∷ name

-- `num` is how many threads were made, this one included.
unfoldable pub new_thread : List ℕ → ℕ → Thread
new_thread name num = record {
  name = name_or_number name num;
  started = false;
  joined = false;
  tid = 0;
  latch = new_count_down_latch (pos 1);
  t_name = [];
}

-- `Start` up to its wait for the new thread; `create_succeeds` is the answer of pthread_create.
unfoldable pub create : Bool → Thread → Result Thread
create create_succeeds t =
    if create_succeeds then ok (record t { started = true }) else fault aborted

-- `Start` after its wait.
unfoldable pub check_tid : Thread → Result Thread
check_tid t = do assert (ltb 0 t.tid); ok t

-- What the new thread does first, one after another: `RunInThread` before the user's function.
unfoldable pub set_tid : ℕ → Thread → Thread
set_tid tid t = record t { tid = tid }

unfoldable pub announce : Thread → Thread
announce t = record t { latch = count_down t.latch }

unfoldable pub set_name : Thread → Thread
set_name t = record t { t_name = t.name }

unfoldable pub join : Thread → Result Thread
join t = do assert t.started; assert (not t.joined); ok (record t { joined = true })

-- Does the destructor detach the thread?
unfoldable pub is_detached : Thread → Bool
is_detached t = t.started && not t.joined
