-- ===== src/Net/Acceptor/Descriptors.antt =====
-- What becomes of the descriptors that the kernel gives to an acceptor.
use wethands.Prelude.{
  ℕ, ap, ◌+◌, ◌≡◌, ◌≢◌, refl, Bool, true, false, Option, none, some, List, [], ◌∷◌, ◌++◌, ◌==◌,
  if◌then◌else◌, ◌>>=◌, ok, fault, aborted, Returns, arith,
}
use wethands.Net.InetAddress.{InetAddress}
use wethands.Net.Socket.{
  AcceptResult, accepted, refused, eagain, econnaborted, eproto, eintr, emfile, other, accept,
  close_fd,
}
use wethands.Net.Acceptor.{Acceptor, close, hand_over, turn_away, is_emfile, handle_read}

-- How often a descriptor is in a list.
unfoldable pub count : ℕ → List ℕ → ℕ
count n [] = 0
count n (x ∷ xs) = (if n == x then 1 else 0) + count n xs

count-snoc :
    (n y : ℕ) (xs : List ℕ) → count n (xs ++ y ∷ []) ≡ count n xs + (if n == y then 1 else 0)
unfolding count
count-snoc n y [] = omega arith
count-snoc n y (x ∷ xs) = omega (arith, count-snoc n y xs)

unfoldable pub handed_fds : List (ℕ × InetAddress) → List ℕ
handed_fds [] = []
handed_fds ((fd, addr) ∷ handed) = fd ∷ handed_fds handed

count-handed_fds :
    (n fd : ℕ) (addr : InetAddress) (handed : List (ℕ × InetAddress))
    → count n (handed_fds (handed ++ (fd, addr) ∷ []))
      ≡ count n (handed_fds handed) + (if n == fd then 1 else 0)
unfolding count handed_fds
count-handed_fds n fd addr [] = omega arith
count-handed_fds n fd addr ((x, a) ∷ handed) = omega (arith, count-handed_fds n fd addr handed)

unfoldable pub held : ℕ → Option ℕ → ℕ
held n none = 0
held n (some fd) = if n == fd then 1 else 0

-- What an acceptor has closed, handed over, or keeps as its placeholder.
unfoldable pub accounted : ℕ → Acceptor → ℕ
accounted n a = count n a.closed + count n (handed_fds a.handed) + held n a.placeholder_fd

-- What the kernel gives in a call of `HandleRead`.
unfoldable pub given : ℕ → AcceptResult → Option ℕ → Option ℕ → ℕ
given n (accepted fd addr) second opened = if n == fd then 1 else 0
given n (refused emfile) second opened = held n second + held n opened
given n (refused e) second opened = 0

-- The error is one that `Accept` knows, and when no descriptor is left, there is a placeholder and
-- the connection that waits is still there.
abbrev pub CanHandle : AcceptResult → Option ℕ → Option ℕ → Type 0
CanHandle (accepted fd addr) second placeholder = Unit
CanHandle (refused emfile) second placeholder = (placeholder ≢ none) × (second ≢ none)
CanHandle (refused other) second placeholder = ⊥
CanHandle (refused e) second placeholder = Unit

hand_over-accounted :
    (fd : ℕ) (addr : InetAddress) (a : Acceptor)
    → Returns
        (hand_over fd addr a)
        (λ a'. (n : ℕ) → accounted n a' ≡ accounted n a + (if n == fd then 1 else 0))
unfolding hand_over close close_fd accounted
hand_over-accounted fd addr a = choose a.has_new_connection_callback
  where
    choose :
        (b : Bool)
        → Returns
            (if b
              then ok (record a { handed = a.handed ++ (fd, addr) ∷ [] })
              else close (some fd) a)
            (λ a'. (n : ℕ) → accounted n a' ≡ accounted n a + (if n == fd then 1 else 0))
    choose true = λ n. omega (arith, count-handed_fds n fd addr a.handed)
    choose false = λ n. omega (arith, count-snoc n fd a.closed)

turn_away-accounted :
    (second opened placeholder : Option ℕ) (a : Acceptor)
    → a.placeholder_fd ≡ placeholder
    → (placeholder ≢ none) × (second ≢ none)
    → Returns
        (turn_away second opened a)
        (λ a'. (n : ℕ) → accounted n a' ≡ accounted n a + (held n second + held n opened))
unfolding turn_away close close_fd accounted held
turn_away-accounted second opened none a e h = absurd (h.0 refl)
turn_away-accounted none opened (some p) a e h = absurd (h.1 refl)
turn_away-accounted (some q) opened (some p) a e h = rw e (λ n.
    omega (arith, count-snoc n p a.closed, count-snoc n q (a.closed ++ p ∷ []), ap (held n) e))

-- `HandleRead` loses no descriptor and closes none twice: with an error that `Accept` knows and,
-- when no descriptor is left, a placeholder and a connection that still waits, it faults in no way,
-- and each descriptor is as often closed, handed over or kept as before plus what the kernel gave.
pub handle_read-accounted :
    (answer : AcceptResult) (second opened : Option ℕ) (a : Acceptor)
    → CanHandle answer second a.placeholder_fd
    → Returns
        (handle_read true answer second opened a)
        (λ a'. (n : ℕ) → accounted n a' ≡ accounted n a + given n answer second opened)
unfolding handle_read accept is_emfile hand_over given
handle_read-accounted (accepted fd addr) second opened a h = hand_over-accounted fd addr a
handle_read-accounted (refused emfile) second opened a h =
    turn_away-accounted second opened a.placeholder_fd a refl h
handle_read-accounted (refused other) second opened a h = absurd h
handle_read-accounted (refused eagain) second opened a h = λ n. omega arith
handle_read-accounted (refused econnaborted) second opened a h = λ n. omega arith
handle_read-accounted (refused eproto) second opened a h = λ n. omega arith
handle_read-accounted (refused eintr) second opened a h = λ n. omega arith

-- When no descriptor is left and the connection that waits is gone again, the process ends, since
-- `CloseFd` is called with -1.
pub handle_read-no_connection :
    (opened : Option ℕ) (a : Acceptor)
    → handle_read true (refused emfile) none opened a ≡ fault aborted
unfolding handle_read accept is_emfile turn_away close close_fd
handle_read-no_connection opened a = close_first a.placeholder_fd
  where
    close_first :
        (p : Option ℕ)
        → (close p a >>= λ freed. close none (record freed { placeholder_fd = none }) >>= λ dropped.
            ok (record dropped { placeholder_fd = opened }))
          ≡ fault aborted
    close_first none = refl
    close_first (some p) = refl
