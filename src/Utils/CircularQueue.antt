-- ===== src/Utils/CircularQueue.antt =====
-- src/utils/BoundedBlockingQueue.h, `CircularQueue`: a ring in a vector of fixed capacity, which
-- grows by `push_back` until it is as long as its capacity and is overwritten from then on.
pub mod Slots
pub mod Represents
mod Tests
use wethands.Prelude.{
  ℕ, ◌+◌, ◌-◌, ◌%◌, ◌^◌, Bool, Option, none, some, List, [], ◌∷◌, ◌++◌, ltb, ◌==◌, length, set,
  get_elem?, Result, ok, fault, aborted, bad_access, require, ◌>>=◌, ◌>>◌, if◌then◌else◌, add_size,
  sub_size,
}

pub record CircularQueue {ℓ} (A : Type ℓ) : Type ℓ where
  pub begin_index : ℕ
  pub end_index : ℕ
  pub size : ℕ
  pub count : ℕ
  pub vec : List A
  -- `vec_.capacity()`
  pub cap : ℕ

-- The next index, `(i + 1) % vec_.capacity()`; a remainder by 0 ends the process.
unfoldable pub next_index : ℕ → ℕ → Result ℕ
next_index places i = do require (ltb 0 places) aborted; ok (add_size i 1 % places)

module _ {ℓ} {A : Type ℓ} where
  -- The capacity is what `vec_.reserve(maxSize)` gives.
  unfoldable pub new_queue : (ℕ → ℕ) → ℕ → CircularQueue A
  new_queue reserve max_size = record {
    begin_index = 0;
    end_index = 0;
    size = 0;
    count = 0;
    vec = [];
    cap = reserve max_size;
  }

  unfoldable pub store : CircularQueue A → A → Result (CircularQueue A)
  store q x =
      if ltb q.count q.cap
      then ok (record q { vec = q.vec ++ x ∷ []; count = q.count + 1 })
      else (do
        require (ltb q.end_index (length q.vec)) bad_access
        ok (record q { vec = set q.vec q.end_index x }))

  unfoldable pub push_back : CircularQueue A → A → Result (CircularQueue A)
  push_back q x = do
    stored ← store q x
    next ← next_index stored.cap stored.end_index
    ok (record stored { end_index = next; size = add_size stored.size 1 })

  unfoldable pub pop_front : CircularQueue A → Result (CircularQueue A)
  pop_front q = do
    next ← next_index q.cap q.begin_index
    ok (record q { begin_index = next; size = sub_size q.size 1 })

  unfoldable pub front : CircularQueue A → Result A
  front q = elim (get_elem? q.vec q.begin_index) [ none ↦ fault bad_access | some x ↦ ok x ]

  unfoldable pub is_empty : CircularQueue A → Bool
  is_empty q = q.size == 0

  unfoldable pub is_full : CircularQueue A → Bool
  is_full q = q.size == q.cap
