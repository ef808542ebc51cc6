-- ===== src/Net/TcpServer/Queue.antt =====
-- The tasks that the loops have yet to run: how many of a kind there are, and where they stand.
use wethands.Prelude.{
  ℕ, zero, suc, ◌+◌, ◌<◌, ◌≡◌, refl, ap, ◌∙◌, Option, none, some, List, [], ◌∷◌, ◌++◌, ◌==◌, length,
  length-append, get_elem?, get_elem?-append_lt, get_elem?-some_lt, set, if◌then◌else◌, Bool-cases,
  inl, inr, ==_iff, arith,
}
use mathlib.Core.Path.{subst}
use wethands.Net.TcpServer.{Served, Task, establish, remove, destroy, take_task}

-- Is the task that of the connection `i`?
unfoldable pub is_establish : ℕ → Task → ℕ
is_establish i (establish j) = if i == j then 1 else 0
is_establish i (remove j) = 0
is_establish i (destroy j) = 0

unfoldable pub is_remove : ℕ → Task → ℕ
is_remove i (establish j) = 0
is_remove i (remove j) = if i == j then 1 else 0
is_remove i (destroy j) = 0

unfoldable pub is_destroy : ℕ → Task → ℕ
is_destroy i (establish j) = 0
is_destroy i (remove j) = 0
is_destroy i (destroy j) = if i == j then 1 else 0

-- How much a kind of task weighs in the queues.
unfoldable pub total : (Task → ℕ) → List (ℕ × Task) → ℕ
total weight [] = 0
total weight ((l, task) ∷ tasks) = weight task + total weight tasks

-- The loops of all connections that were made.
unfoldable pub loops_of : List Served → List ℕ
loops_of [] = []
loops_of (o ∷ objects) = o.io_loop ∷ loops_of objects

pub length-loops_of : (objects : List Served) → length (loops_of objects) ≡ length objects
unfolding loops_of
length-loops_of [] = refl
length-loops_of (o ∷ objects) = ap suc (length-loops_of objects)

pub get_elem?-loops_of :
    (objects : List Served) (i : ℕ) (o : Served)
    → get_elem? objects i ≡ some o
    → get_elem? (loops_of objects) i ≡ some o.io_loop
unfolding loops_of
get_elem?-loops_of [] i o h = cc
get_elem?-loops_of (p ∷ objects) zero o h = ground arith
get_elem?-loops_of (p ∷ objects) (suc i) o h = get_elem?-loops_of objects i o h

-- A task on a connection stands with a loop of a connection that was made.
pub get_elem?-loops_of-some :
    (objects : List Served) (i l : ℕ)
    → get_elem? (loops_of objects) i ≡ some l
    → (o : Served) × (get_elem? objects i ≡ some o) × (o.io_loop ≡ l)
unfolding loops_of
get_elem?-loops_of-some [] i l h = cc
get_elem?-loops_of-some (p ∷ objects) zero l h = (p, refl, ground arith)
get_elem?-loops_of-some (p ∷ objects) (suc i) l h = get_elem?-loops_of-some objects i l h

pub loops_of-append :
    (objects : List Served) (o : Served)
    → loops_of (objects ++ o ∷ []) ≡ loops_of objects ++ o.io_loop ∷ []
unfolding loops_of
loops_of-append [] o = refl
loops_of-append (p ∷ objects) o = ap (λ l. p.io_loop ∷ l) (loops_of-append objects o)

pub loops_of-set :
    (objects : List Served) (i : ℕ) (o o' : Served)
    → get_elem? objects i ≡ some o
    → o'.io_loop ≡ o.io_loop
    → loops_of (set objects i o') ≡ loops_of objects
unfolding loops_of
loops_of-set [] i o o' h e = refl
loops_of-set (p ∷ objects) zero o o' h e = ground arith
loops_of-set (p ∷ objects) (suc i) o o' h e =
    ap (λ l. p.io_loop ∷ l) (loops_of-set objects i o o' h e)

-- A task stands with the loop that it shall run in.
abbrev pub IsPlaced : List ℕ → ℕ → Task → Type 0
IsPlaced loops l (establish i) = get_elem? loops i ≡ some l
IsPlaced loops l (remove i) = (l ≡ 0) × (i < length loops)
IsPlaced loops l (destroy i) = get_elem? loops i ≡ some l

abbrev pub ArePlaced : List ℕ → List (ℕ × Task) → Type 0
ArePlaced loops [] = Unit
ArePlaced loops ((l, task) ∷ tasks) = IsPlaced loops l task × ArePlaced loops tasks

pub total-snoc :
    (weight : Task → ℕ) (tasks : List (ℕ × Task)) (l : ℕ) (task : Task)
    → total weight (tasks ++ (l, task) ∷ []) ≡ weight task + total weight tasks
unfolding total
total-snoc weight [] l task = refl
total-snoc weight ((k, t) ∷ tasks) l task = omega (arith, total-snoc weight tasks l task)

pub snoc-ArePlaced :
    (loops : List ℕ) (tasks : List (ℕ × Task)) (l : ℕ) (task : Task)
    → IsPlaced loops l task
    → ArePlaced loops tasks
    → ArePlaced loops (tasks ++ (l, task) ∷ [])
snoc-ArePlaced loops [] l task h hs = (h, tt)
snoc-ArePlaced loops ((k, t) ∷ tasks) l task h hs = (hs.0, snoc-ArePlaced loops tasks l task h hs.1)

append-IsPlaced :
    (loops : List ℕ) (k l : ℕ) (task : Task)
    → IsPlaced loops l task
    → IsPlaced (loops ++ k ∷ []) l task
append-IsPlaced loops k l (establish i) h =
    get_elem?-append_lt loops _ i (get_elem?-some_lt loops i l h) ∙ h
append-IsPlaced loops k l (remove i) h = (h.0, omega (arith, length-append loops (k ∷ [])))
append-IsPlaced loops k l (destroy i) h =
    get_elem?-append_lt loops _ i (get_elem?-some_lt loops i l h) ∙ h

pub append-ArePlaced :
    (loops : List ℕ) (k : ℕ) (tasks : List (ℕ × Task))
    → ArePlaced loops tasks
    → ArePlaced (loops ++ k ∷ []) tasks
append-ArePlaced loops k [] h = tt
append-ArePlaced loops k ((l, task) ∷ tasks) h =
    (append-IsPlaced loops k l task h.0, append-ArePlaced loops k tasks h.1)

-- The task that a loop takes next is one of those that stand with it; the others stay.
abbrev pub Takes : List ℕ → ℕ → List (ℕ × Task) → Option (Task × List (ℕ × Task)) → Type 0
Takes loops l tasks none = Unit
Takes loops l tasks (some (task, rest)) =
    IsPlaced loops l task
    × ArePlaced loops rest
    × ((weight : Task → ℕ) → total weight tasks ≡ weight task + total weight rest)

behind-Takes :
    (loops : List ℕ) (l k : ℕ) (t : Task) (tasks : List (ℕ × Task))
    (found : Option (Task × List (ℕ × Task)))
    → IsPlaced loops k t
    → Takes loops l tasks found
    → Takes loops l
        ((k, t) ∷ tasks)
        (elim found [ none ↦ none | some later ↦ some (later.0, (k, t) ∷ later.1) ])
unfolding total
behind-Takes loops l k t tasks none h takes = tt
behind-Takes loops l k t tasks (some (task, rest)) h takes =
    (takes.0, (h, takes.1), λ weight. omega (arith, takes.2 weight))

pub take_task-Takes :
    (loops : List ℕ) (l : ℕ) (tasks : List (ℕ × Task))
    → ArePlaced loops tasks
    → Takes loops l tasks (take_task l tasks)
unfolding take_task total
take_task-Takes loops l [] h = tt
take_task-Takes loops l ((k, t) ∷ tasks) h = elim (Bool-cases (k == l)) [
  | inl here ↦
      rw here (subst (λ m. IsPlaced loops m t) ((==_iff k l).0 here) h.0, h.1, λ weight. refl)
  | inr there ↦ rw there (behind-Takes loops l k t tasks _ h.0 (take_task-Takes loops l tasks h.1))
]
