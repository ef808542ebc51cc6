-- ===== src/Prelude/Faults.antt =====
-- The outcome of an operation that can fault: it ends the process or leaves defined behaviour.
use mathlib.Core.Path.{◌≡◌, refl}
use mathlib.Core.Bool.{Bool, true, false}
use mathlib.Core.Logic.{◌⊎◌, inl, inr}
use wethands.Prelude.Tests.{if◌then◌else◌}
use mathlib.Core.Option.{Option, none, some}

-- A failed `assert`, an access outside an object, a null or dangling pointer, an exception that
-- nothing catches (`std::length_error`, `std::bad_function_call`), and `abort` after LOG_FATAL.
-- `overlap` is a memcpy between regions that overlap, which is undefined.
pub data Fault : Type 0 where
  overlap assert_failed bad_access null_pointer uncaught aborted : Fault

pub data Result {ℓ} (A : Type ℓ) : Type ℓ where
  ok : A → Result A
  fault : Fault → Result A

infixl 5 ◌>>=◌ ◌>>◌
abbrev pub ◌>>=◌ {ℓ κ} : {A : Type ℓ} {B : Type κ} → Result A → (A → Result B) → Result B
ok a >>= f = f a
fault e >>= f = fault e

abbrev pub ◌>>◌ {ℓ} : {B : Type ℓ} → Result (Unit {0}) → Result B → Result B
m >> k = m >>= λ _. k

-- `assert(b)`, and the other checks that end the run.
abbrev pub require : Bool → Fault → Result (Unit {0})
require true e = ok tt
require false e = fault e

abbrev pub assert : Bool → Result (Unit {0})
assert b = require b assert_failed

pub Result-cases {ℓ} :
    {A : Type ℓ} (r : Result A) → ((a : A) × (r ≡ ok a)) ⊎ ((e : Fault) × (r ≡ fault e))
Result-cases (ok a) = inl (a, refl)
Result-cases (fault e) = inr (e, refl)

-- The type with no element, at every level.
pub data Never {κ} : Type κ where

-- Total correctness: the operation faults in no way, and its result satisfies `P`.
abbrev pub Returns {ℓ κ} : {A : Type ℓ} → Result A → (A → Type κ) → Type κ
Returns (ok a) P = P a
Returns (fault e) P = Never

pub Returns-ok {ℓ κ} :
    {A : Type ℓ} (P : A → Type κ) (r : Result A) (a : A) → r ≡ ok a → P a → Returns r P
Returns-ok P r a e h = rw e h

pub Returns-bind {ℓ κ μ ν} :
    {A : Type ℓ} {B : Type κ} (P : A → Type μ) (Q : B → Type ν) (r : Result A) (f : A → Result B)
    → Returns r P
    → ((a : A) → P a → Returns (f a) Q)
    → Returns (r >>= f) Q
Returns-bind P Q (ok a) f h k = k a h
Returns-bind P Q (fault e) f h k = elim h [ ]

pub Returns-map {ℓ κ μ} :
    {A : Type ℓ} (P : A → Type κ) (Q : A → Type μ) (r : Result A)
    → Returns r P
    → ((a : A) → P a → Q a)
    → Returns r Q
Returns-map P Q (ok a) h k = k a h
Returns-map P Q (fault e) h k = elim h [ ]

pub Returns-both {ℓ κ μ} :
    {A : Type ℓ} (P : A → Type κ) (Q : A → Type μ) (r : Result A)
    → Returns r P
    → Returns r Q
    → Returns r (λ a. P a × Q a)
Returns-both P Q (ok a) h k = (h, k)
Returns-both P Q (fault e) h k = elim h [ ]

-- What an operation that faults in no way returns.
pub Returns-out {ℓ κ} :
    {A : Type ℓ} (P : A → Type κ) (r : Result A) → Returns r P → (a : A) × (r ≡ ok a) × P a
Returns-out P (ok a) h = (a, refl, h)
Returns-out P (fault e) h = elim h [ ]

pub Returns-if {ℓ κ} :
    {A : Type ℓ} (P : A → Type κ) (b : Bool) (r s : Result A)
    → (b ≡ true → Returns r P)
    → (b ≡ false → Returns s P)
    → Returns (if b then r else s) P
Returns-if P true r s h k = h refl
Returns-if P false r s h k = k refl

pub Returns-elim {ℓ κ μ} :
    {A : Type ℓ} {B : Type κ} (P : B → Type μ) (o : Option A) (r : Result B) (f : A → Result B)
    → (o ≡ none → Returns r P)
    → ((a : A) → o ≡ some a → Returns (f a) P)
    → Returns (elim o [ none ↦ r | some a ↦ f a ]) P
Returns-elim P none r f h k = h refl
Returns-elim P (some a) r f h k = k a refl

-- Correctness but for one way to fail: the operation stops at a memcpy between regions that overlap,
-- and then `Q` holds; or it faults in no way, and its result satisfies `P`.
abbrev pub Unless {ℓ κ} : {A : Type ℓ} → Type κ → Result A → (A → Type κ) → Type κ
Unless Q (ok a) P = P a
Unless Q (fault overlap) P = Q
Unless Q (fault e) P = Never

pub Unless-bind {ℓ κ μ} :
    {A : Type ℓ} {B : Type κ} (Q : Type μ) (P : A → Type μ) (R : B → Type μ) (r : Result A)
    (f : A → Result B)
    → Unless Q r P
    → ((a : A) → P a → Unless Q (f a) R)
    → Unless Q (r >>= f) R
Unless-bind Q P R (ok a) f h k = k a h
Unless-bind Q P R (fault overlap) f h k = h
Unless-bind Q P R (fault assert_failed) f h k = elim h [ ]
Unless-bind Q P R (fault bad_access) f h k = elim h [ ]
Unless-bind Q P R (fault null_pointer) f h k = elim h [ ]
Unless-bind Q P R (fault uncaught) f h k = elim h [ ]
Unless-bind Q P R (fault aborted) f h k = elim h [ ]

pub Unless-map {ℓ κ} :
    {A : Type ℓ} (Q Q' : Type κ) (P P' : A → Type κ) (r : Result A)
    → Unless Q r P
    → (Q → Q')
    → ((a : A) → P a → P' a)
    → Unless Q' r P'
Unless-map Q Q' P P' (ok a) h q k = k a h
Unless-map Q Q' P P' (fault overlap) h q k = q h
Unless-map Q Q' P P' (fault assert_failed) h q k = elim h [ ]
Unless-map Q Q' P P' (fault bad_access) h q k = elim h [ ]
Unless-map Q Q' P P' (fault null_pointer) h q k = elim h [ ]
Unless-map Q Q' P P' (fault uncaught) h q k = elim h [ ]
Unless-map Q Q' P P' (fault aborted) h q k = elim h [ ]

-- Total correctness is more, and is left when `Q` does not hold.
pub Unless_of {ℓ κ} :
    {A : Type ℓ} (Q : Type κ) (P : A → Type κ) (r : Result A) → Returns r P → Unless Q r P
Unless_of Q P (ok a) h = h
Unless_of Q P (fault e) h = elim h [ ]

pub Unless-Returns {ℓ κ} :
    {A : Type ℓ} (Q : Type κ) (P : A → Type κ) (r : Result A)
    → Unless Q r P
    → (Q → Never {κ})
    → Returns r P
Unless-Returns Q P (ok a) h n = h
Unless-Returns Q P (fault overlap) h n = n h
Unless-Returns Q P (fault assert_failed) h n = elim h [ ]
Unless-Returns Q P (fault bad_access) h n = elim h [ ]
Unless-Returns Q P (fault null_pointer) h n = elim h [ ]
Unless-Returns Q P (fault uncaught) h n = elim h [ ]
Unless-Returns Q P (fault aborted) h n = elim h [ ]
