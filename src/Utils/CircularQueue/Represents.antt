-- ===== src/Utils/CircularQueue/Represents.antt =====
-- The ring refines a bounded list: `push_back` adds at the end, `front` and `pop_front` take off
-- the front, and no index leaves the vector.
use wethands.Prelude.{
  ℕ, suc, ◌+◌, ◌^◌, ◌<◌, ◌≤◌, ◌≡◌, refl, sym, ap, ◌∙◌, List, [], ◌∷◌, ◌++◌, ltb, ◌==◌, length, set,
  get_elem?, ok, arith, if◌then◌else◌, add_size, sub_size, ltb→lt, Bool-cases, inl, inr,
  length-append, length-set, get_elem?-append_lt, get_elem?-append_end, get_elem?-set_self,
  get_elem?-set_ne, some,
}
use wethands.Utils.CircularQueue.{
  CircularQueue, new_queue, store, push_back, pop_front, front, is_empty, is_full,
}
use wethands.Utils.CircularQueue.Slots.{slot, slot-lt, slot-ne, next_index_lem}

module _ {ℓ} {A : Type ℓ} where
  pub record IsRing (q : CircularQueue A) : Type 0 where
    pub some_place : 0 < q.cap
    pub small : q.cap < 2 ^ 63
    pub begin_in : q.begin_index < q.cap
    pub size_le : q.size ≤ q.cap
    pub end_at : q.end_index ≡ slot q.cap q.begin_index q.size
    pub counted : q.count ≡ length q.vec
    pub vec_le : length q.vec ≤ q.cap
    pub filling : length q.vec < q.cap → q.begin_index + q.size ≡ length q.vec

  -- The ring holds `xs`, oldest first.
  pub record Represents (q : CircularQueue A) (xs : List A) : Type ℓ where
    pub ring : IsRing q
    pub sized : length xs ≡ q.size
    pub elems : (k : ℕ) → k < q.size → get_elem? q.vec (slot q.cap q.begin_index k) ≡ get_elem? xs k

  pub new_queue-Represents :
      (reserve : ℕ → ℕ) (n : ℕ)
      → 0 < reserve n
      → reserve n < 2 ^ 63
      → Represents (new_queue reserve n) []
  unfolding new_queue
  new_queue-Represents reserve n pos small = record {
    ring = ground arith;
    sized = refl;
    elems = λ k h. elim h [ ];
  }

  -- A full or an empty ring is one whose list is as long as the capacity, or empty.
  pub is_full_iff :
      (q : CircularQueue A) (xs : List A) → Represents q xs → is_full q ≡ (length xs == q.cap)
  unfolding is_full
  is_full_iff q xs r = rw r.sized

  pub is_empty_iff :
      (q : CircularQueue A) (xs : List A) → Represents q xs → is_empty q ≡ (length xs == 0)
  unfolding is_empty
  is_empty_iff q xs r = rw r.sized

  module _ (q : CircularQueue A) (xs : List A) (x : A) (r : Represents q xs)
      (room : q.size < q.cap) where
    -- The vector after `store`.
    stored_vec : List A
    stored_vec = if ltb q.count q.cap then q.vec ++ x ∷ [] else set q.vec q.end_index x

    stored : CircularQueue A
    stored = record q {
      vec = stored_vec;
      count = if ltb q.count q.cap then q.count + 1 else q.count;
    }

    store_lem : store q x ≡ ok stored
    unfolding store stored stored_vec
    store_lem = ground (arith, r.ring, slot-lt q.cap q.begin_index q.size)

    stored_at_end : get_elem? stored_vec (slot q.cap q.begin_index q.size) ≡ some x
    unfolding stored_vec
    stored_at_end = elim (Bool-cases (ltb q.count q.cap)) [
      | inl grows ↦ rw grows (
          get_elem?-append_end q.vec x (slot q.cap q.begin_index q.size)
            (ground (arith, r.ring.filling, r.ring.counted)))
      | inr whole ↦
          rw (whole, r.ring.end_at)
            (get_elem?-set_self q.vec (slot q.cap q.begin_index q.size) x
              (ground (arith, r.ring, slot-lt q.cap q.begin_index q.size)))
    ]

    stored_before :
        (k : ℕ) → k < q.size → get_elem? stored_vec (slot q.cap q.begin_index k) ≡ get_elem? xs k
    unfolding stored_vec
    stored_before k h = elim (Bool-cases (ltb q.count q.cap)) [
      | inl grows ↦ rw grows (
          get_elem?-append_lt q.vec (x ∷ []) (slot q.cap q.begin_index k)
            (ground (arith, r.ring.filling, r.ring.counted))
          ∙ r.elems k h)
      | inr whole ↦
          rw (whole, r.ring.end_at)
            (get_elem?-set_ne q.vec (slot q.cap q.begin_index q.size) (slot q.cap q.begin_index k) x
                (slot-ne q.cap q.begin_index k q.size r.ring.begin_in h room)
              ∙ r.elems k h)
    ]

    length-stored_vec :
        length stored_vec ≡ (if ltb q.count q.cap then length q.vec + 1 else length q.vec)
    unfolding stored_vec
    length-stored_vec = ground (arith, length-append q.vec (x ∷ []), length-set q.vec q.end_index x)

    pushed : CircularQueue A
    pushed = record stored {
      end_index = if q.end_index + 1 == q.cap then 0 else q.end_index + 1;
      size = add_size q.size 1;
    }

    pushed-IsRing : IsRing pushed
    unfolding pushed stored
    pushed-IsRing = ground (arith, r.ring, length-stored_vec)

    -- What the list says at each place of the new ring.
    pushed_elems :
        (k : ℕ)
        → k < pushed.size
        → get_elem? pushed.vec (slot pushed.cap pushed.begin_index k) ≡ get_elem? (xs ++ x ∷ []) k
    unfolding pushed stored
    pushed_elems k h = elim (Bool-cases (ltb k q.size)) [
      | inl old ↦
          stored_before k (ltb→lt _ _ old)
          ∙ sym (get_elem?-append_lt xs (x ∷ []) k (omega (arith, r.sized, ltb→lt k q.size)))
      | inr new ↦
          (let e : k ≡ q.size = ground arith in
            rw e (stored_at_end ∙ sym (get_elem?-append_end xs x q.size (sym r.sized))))
    ]

  -- On a ring with a free place `push_back` faults in no way and adds the value at the end.
  pub push_back_lem :
      (q : CircularQueue A) (xs : List A) (x : A)
      → Represents q xs
      → q.size < q.cap
      → (q' : CircularQueue A) × (push_back q x ≡ ok q')
        × Represents q' (xs ++ x ∷ [])
        × (q'.cap ≡ q.cap)
  unfolding push_back pushed stored
  push_back_lem q xs x r room = (pushed q xs x r room, computed, represents, refl)
    where
      computed : push_back q x ≡ ok (pushed q xs x r room)
      computed =
          rw
            (
              store_lem q xs x r room,
              next_index_lem q.cap q.end_index
                  (ground (arith, r.ring, slot-lt q.cap q.begin_index q.size)) r.ring.small,
            )
            refl

      represents : Represents (pushed q xs x r room) (xs ++ x ∷ [])
      represents = record {
        ring = pushed-IsRing q xs x r room;
        sized = omega (arith, r.sized, r.ring.size_le, r.ring.small, length-append xs (x ∷ []));
        elems = pushed_elems q xs x r room;
      }

  -- On a ring that is not empty `front` is the oldest value and `pop_front` takes it off.
  pub pop_front_lem :
      (q : CircularQueue A) (x : A) (xs : List A)
      → Represents q (x ∷ xs)
      → (front q ≡ ok x)
        × ((q' : CircularQueue A) × (pop_front q ≡ ok q') × Represents q' xs × (q'.cap ≡ q.cap))
  unfolding front pop_front
  pop_front_lem q x xs r = (
    rw (first, front),
    (
      popped,
      rw (next_index_lem q.cap q.begin_index r.ring.begin_in r.ring.small),
      represents,
      refl,
    ),
  )
    where
      first : get_elem? q.vec q.begin_index ≡ some x
      first = ap (get_elem? q.vec) (ground (arith, r.ring)) ∙ r.elems 0 (omega (arith, r.sized))

      popped : CircularQueue A
      popped = record q {
        begin_index = if q.begin_index + 1 == q.cap then 0 else q.begin_index + 1;
        size = sub_size q.size 1;
      }

      represents : Represents popped xs
      represents = record {
        ring = ground (arith, r.ring, r.sized);
        sized = omega (arith, r.sized, r.ring.size_le, r.ring.small);
        elems = λ k h.
            ap (get_elem? q.vec) (ground (arith, r.ring, r.sized))
            ∙ r.elems (suc k) (omega (arith, r.sized, r.ring.size_le, r.ring.small));
      }
