-- ===== src/Reactor/TimerQueue/Order.antt =====
-- The set stays in order, and the expired timers are exactly those that are due.
use wethands.Prelude.{
  ℕ, ◌-◌, ◌^◌, ◌<◌, ◌≤◌, ◌≡◌, ◌≢◌, ◌↔◌, refl, sym, ap, inl, inr, true, false, List, [], ◌∷◌, ◌++◌,
  ok, Returns, Returns-bind, arith, Bool-cases,
}
use wethands.Reactor.Timer.{TimerIndex, is_before}
use wethands.Reactor.TimerQueue.{
  TimerQueue, sentry, before, from_lower_bound, get_expired, insert, is_same,
}

unfoldable pub Every {ℓ κ} : {A : Type ℓ} → (A → Type κ) → List A → Type κ
Every P [] = Unit
Every P (x ∷ xs) = P x × Every P xs

pub Every-map {ℓ κ μ} :
    {A : Type ℓ} (P : A → Type κ) (Q : A → Type μ) (xs : List A)
    → ((x : A) → P x → Q x)
    → Every P xs
    → Every Q xs
unfolding Every
Every-map P Q [] f h = tt
Every-map P Q (x ∷ xs) f (p, h) = (f x p, Every-map P Q xs f h)

pub Every-map2 {ℓ κ μ ν} :
    {A : Type ℓ} (P : A → Type κ) (Q : A → Type μ) (R : A → Type ν) (xs : List A)
    → ((x : A) → P x → Q x → R x)
    → Every P xs
    → Every Q xs
    → Every R xs
unfolding Every
Every-map2 P Q R [] f h k = tt
Every-map2 P Q R (x ∷ xs) f (p, h) (q, k) = (f x p q, Every-map2 P Q R xs f h k)

pub Every-append {ℓ κ} :
    {A : Type ℓ} (P : A → Type κ) (xs ys : List A) → Every P (xs ++ ys) → Every P xs × Every P ys
unfolding Every
Every-append P [] ys h = (tt, h)
Every-append P (x ∷ xs) ys (p, h) = ((p, (Every-append P xs ys h).0), (Every-append P xs ys h).1)

-- Each index comes before all that follow it.
unfoldable pub IsSorted : List TimerIndex → Type 0
IsSorted [] = Unit
IsSorted (x ∷ xs) = Every (λ y. is_before x y ≡ true) xs × IsSorted xs

is_before_trans :
    (a b c : TimerIndex) → is_before a b ≡ true → is_before b c ≡ true → is_before a c ≡ true
unfolding is_before
is_before_trans a b c h k = ground arith

-- Where the range of the indices before `i` ends.
pub before-append-from_lower_bound :
    (i : TimerIndex) (xs : List TimerIndex) → before i xs ++ from_lower_bound i xs ≡ xs
unfolding before from_lower_bound
before-append-from_lower_bound i [] = refl
before-append-from_lower_bound i (x ∷ xs) = elim (Bool-cases (is_before x i)) [
  | inl front ↦ rw front (ap (λ l. x ∷ l) (before-append-from_lower_bound i xs))
  | inr late ↦ rw late refl
]

-- No sequence number is as large as the one of the sentry.
abbrev pub IsSequence : TimerIndex → Type 0
IsSequence x = x.sequence < 2 ^ 63 - 1

due : (x : TimerIndex) (now : ℕ) → is_before x (sentry now) ≡ true → x.expiration ≤ now
unfolding is_before
due x now h = ground arith

not_due :
    (x : TimerIndex) (now : ℕ)
    → IsSequence x
    → is_before x (sentry now) ≡ false
    → now < x.expiration
unfolding is_before
not_due x now s h = ground arith

later_expiration : (x y : TimerIndex) → is_before x y ≡ true → x.expiration ≤ y.expiration
unfolding is_before
later_expiration x y h = ground arith

module _ (now : ℕ) where
  before_lem : (xs : List TimerIndex) → Every (λ x. x.expiration ≤ now) (before (sentry now) xs)
  unfolding before Every
  before_lem [] = tt
  before_lem (x ∷ xs) = elim (Bool-cases (is_before x (sentry now))) [
    | inl front ↦ rw front (due x now front, before_lem xs)
    | inr late ↦ rw late tt
  ]

  from_lower_bound_lem :
      (xs : List TimerIndex)
      → IsSorted xs
      → Every IsSequence xs
      → Every (λ x. now < x.expiration) (from_lower_bound (sentry now) xs)
  unfolding from_lower_bound Every IsSorted
  from_lower_bound_lem [] sorted small = tt
  from_lower_bound_lem (x ∷ xs) (first, sorted) (s, small) =
      elim (Bool-cases (is_before x (sentry now))) [
        | inl front ↦ rw front (from_lower_bound_lem xs sorted small)
        | inr late ↦ rw late (
          not_due x now s late,
          Every-map (λ y. is_before x y ≡ true) (λ y. now < y.expiration) xs
              (λ y b. omega (arith, not_due x now s late, later_expiration x y b)) first,
        )
      ]

-- On timers in order `get_expired` takes out exactly those that are due at `now`, in their order:
-- all that it returns expire at `now` or before, all that stay expire later, and together they
-- are what was there.
pub get_expired_lem :
    (q : TimerQueue) (now : ℕ)
    → IsSorted q.timers
    → Every IsSequence q.timers
    → ((get_expired q now).0 ++ (get_expired q now).1.timers ≡ q.timers)
      × Every (λ x. x.expiration ≤ now) (get_expired q now).0
      × Every (λ x. now < x.expiration) (get_expired q now).1.timers
unfolding get_expired
get_expired_lem q now sorted small = (
  before-append-from_lower_bound (sentry now) q.timers,
  before_lem now q.timers,
  from_lower_bound_lem now q.timers sorted small,
)

-- No two indices have the same sequence number.
unfoldable pub IsDistinct : List TimerIndex → Type 0
IsDistinct [] = Unit
IsDistinct (x ∷ xs) = Every (λ y. y.sequence ≢ x.sequence) xs × IsDistinct xs

-- What an insertion makes of a set.
pub record Inserted (i : TimerIndex) (xs ys : List TimerIndex) : Type 1 where
  pub sorted : IsSorted ys
  pub every : (P : TimerIndex → Type 0) → Every P ys ↔ (P i × Every P xs)
  pub distinct : IsDistinct xs → Every (λ x. x.sequence ≢ i.sequence) xs → IsDistinct ys

module _ (i : TimerIndex) where
  insert_first :
      (x : TimerIndex) (xs : List TimerIndex)
      → IsSorted (x ∷ xs)
      → is_before i x ≡ true
      → Inserted i (x ∷ xs) (i ∷ x ∷ xs)
  unfolding IsSorted Every
  insert_first x xs (first, sorted) h = record {
    sorted = (
      (
        h,
        Every-map (λ y. is_before x y ≡ true) (λ y. is_before i y ≡ true) xs
            (λ y b. is_before_trans i x y h b) first,
      ),
      (first, sorted),
    );
    every = λ P. (λ e. e, λ e. e);
    distinct = λ apart other. unfold IsDistinct in (other, apart);
  }

  insert_later :
      (x : TimerIndex) (xs ys : List TimerIndex)
      → IsSorted (x ∷ xs)
      → is_before x i ≡ true
      → Inserted i xs ys
      → Inserted i (x ∷ xs) (x ∷ ys)
  unfolding IsSorted Every
  insert_later x xs ys (first, sorted) h inserted = record {
    sorted = ((inserted.every (λ y. is_before x y ≡ true)).1 (h, first), inserted.sorted);
    every = λ P. (
      λ e. (((inserted.every P).0 e.1).0, (e.0, ((inserted.every P).0 e.1).1)),
      λ e. (e.1.0, (inserted.every P).1 (e.0, e.1.1)),
    );
    distinct = λ apart other.
        unfold IsDistinct in
        (
          (inserted.every (λ y. y.sequence ≢ x.sequence)).1
              (λ e. other.0 (sym e), (unfold IsDistinct in apart.0)),
          inserted.distinct (unfold IsDistinct in apart.1) other.1,
        );
  }

  -- Inserting an index that is not in the set faults in no way: the set stays in order, and holds
  -- that index and what it held.
  pub insert_lem :
      (xs : List TimerIndex)
      → IsSorted xs
      → Every (λ x. is_same i x ≡ false) xs
      → Returns (insert i xs) (Inserted i xs)
  unfolding insert is_same Every
  insert_lem [] sorted other = record {
    sorted = unfold IsSorted Every in (tt, tt);
    every = λ P. unfold Every in (λ e. e, λ e. e);
    distinct = λ apart other. unfold IsDistinct in unfold Every in (tt, tt);
  }
  insert_lem (x ∷ xs) sorted (differs, others) = elim (Bool-cases (is_before i x)) [
    | inl front ↦ rw front (insert_first x xs sorted front)
    | inr late ↦
        let back : is_before x i ≡ true = ground arith in
        rw (late, back)
          (Returns-bind (Inserted i xs) (Inserted i (x ∷ xs)) (insert i xs) (λ ys. ok (x ∷ ys))
            (insert_lem xs (unfold IsSorted in sorted.1) others)
            (λ ys done. insert_later x xs ys sorted back done))
  ]
