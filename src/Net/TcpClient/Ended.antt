-- ===== src/Net/TcpClient/Ended.antt =====
-- The connections that a client made: one is open at most, all others are ended.
use mathlib.Core.Path.{subst}
use native.Mathlib.Decide.{ℕ_discrete}
use wethands.Prelude.{
  ℕ, ◌<◌, ◌≡◌, ◌≢◌, ap, sym, ◌∙◌, Bool, true, false, Option, none, some, List, [], ◌∷◌, ◌++◌, ◌==◌,
  length, get_elem?, get_elem?-set_self, get_elem?-set_ne, get_elem?-append_ne,
  get_elem?-append_end, set, ==_iff, arith,
}
use wethands.Net.TcpConnection.{TcpConnection, disconnected}
use wethands.Net.TcpServer.{is_open}
use wethands.Net.TcpServer.Stages.{HasCallbacks}

abbrev pub is_current : Option ℕ → ℕ → Bool
is_current none i = false
is_current (some k) i = i == k

-- The connection that the client has is open; any other is closed and out of the poller.
abbrev pub IsAt : Bool → TcpConnection → Type 0
IsAt true c = is_open c ≡ true
IsAt false c = (c.state ≡ disconnected) × (c.socket_channel.registered_to_poller ≡ false)

abbrev pub AreEnded : Option ℕ → List (List ℕ × TcpConnection) → Type 0
AreEnded current objects =
    (i : ℕ) (o : List ℕ × TcpConnection)
    → get_elem? objects i ≡ some o
    → HasCallbacks o.1 × IsAt (is_current current i) o.1

not_eq : (i j : ℕ) → j ≢ i → (j == i) ≡ false
not_eq i j ne = ground arith

-- Every connection but `i` is as it should be.
abbrev pub OthersEnded : Option ℕ → List (List ℕ × TcpConnection) → ℕ → Type 0
OthersEnded current objects i =
    (j : ℕ) (o : List ℕ × TcpConnection)
    → j ≢ i
    → get_elem? objects j ≡ some o
    → HasCallbacks o.1 × IsAt (is_current current j) o.1

pub set-OthersEnded :
    (current : Option ℕ) (objects : List (List ℕ × TcpConnection)) (i : ℕ)
    (o : List ℕ × TcpConnection)
    → OthersEnded current objects i
    → OthersEnded current (set objects i o) i
set-OthersEnded current objects i o h j p ne found =
    h j p ne (sym (get_elem?-set_ne objects i j o (λ e. ne (sym e))) ∙ found)

-- The connection `i` goes on.
pub set-AreEnded :
    (current : Option ℕ) (objects : List (List ℕ × TcpConnection)) (i : ℕ)
    (o : List ℕ × TcpConnection)
    → OthersEnded current objects i
    → i < length objects
    → HasCallbacks o.1
    → IsAt (is_current current i) o.1
    → AreEnded current (set objects i o)
set-AreEnded current objects i o h lt callbacks at_i j p found = elim (ℕ_discrete j i) [
  | yes e ↦
      let found_i : some o ≡ some p =
        sym (get_elem?-set_self objects i o lt)
        ∙ ap (get_elem? (set objects i o)) (sym e)
        ∙ found in
      let same : o ≡ p = cc found_i in
      subst (λ q. HasCallbacks q.1 × IsAt (is_current current j) q.1) same
        (callbacks, subst (λ k. IsAt (is_current current k) o.1) (sym e) at_i)
  | no ne ↦ set-OthersEnded current objects i o h j p ne found
]

-- Without the connection `i` the client has none.
pub AreEnded-others :
    (i : ℕ) (objects : List (List ℕ × TcpConnection))
    → AreEnded (some i) objects
    → OthersEnded none objects i
AreEnded-others i objects h j o ne found =
    let (callbacks, at_j) = h j o found in (callbacks, subst (λ b. IsAt b o.1) (not_eq i j ne) at_j)

-- The new connection is the one that the client has.
pub append-AreEnded :
    (objects : List (List ℕ × TcpConnection)) (o : List ℕ × TcpConnection)
    → AreEnded none objects
    → HasCallbacks o.1
    → is_open o.1 ≡ true
    → AreEnded (some (length objects)) (objects ++ o ∷ [])
append-AreEnded objects o h callbacks up j p found = elim (ℕ_discrete j (length objects)) [
  | yes e ↦
      let found_i : some o ≡ some p = sym (get_elem?-append_end objects o j e) ∙ found in
      let same : o ≡ p = cc found_i in
      subst (λ q. HasCallbacks q.1 × IsAt (j == length objects) q.1) same
        (callbacks, subst (λ b. IsAt b o.1) (sym ((==_iff j (length objects)).1 e)) up)
  | no ne ↦
      let (callbacks', at_j) = h j p (sym (get_elem?-append_ne objects o j ne) ∙ found) in
      (callbacks', subst (λ b. IsAt b p.1) (sym (not_eq (length objects) j ne)) at_j)
]
