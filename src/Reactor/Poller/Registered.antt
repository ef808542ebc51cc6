-- ===== src/Reactor/Poller/Registered.antt =====
-- That the poller's map, the channels' flags and what the kernel watches stay in step.
use std.Path.{subst}
use wethands.Prelude.{
  ℕ, ◌≡◌, inl, inr, refl, sym, ap, ◌∙◌, Bool, true, false, Option, none, some, Bool-cases,
  if◌then◌else◌, ◌==◌, arith,
}
use wethands.Reactor.Poller.{Epoll, Entry, Poller, set_at}

pub set_at-same {ℓ} :
    {A : Type ℓ} (f : ℕ → A) (n : ℕ) (a : A) (m : ℕ) → (m == n) ≡ true → set_at f n a m ≡ a
unfolding set_at
set_at-same f n a m e = rw e refl

pub set_at-other {ℓ} :
    {A : Type ℓ} (f : ℕ → A) (n : ℕ) (a : A) (m : ℕ) → (m == n) ≡ false → set_at f n a m ≡ f m
unfolding set_at
set_at-other f n a m e = rw e refl

pub ==_true : (m n : ℕ) → (m == n) ≡ true → m ≡ n
==_true m n e = ground (arith, e)

pub ==_refl : (m n : ℕ) → m ≡ n → (m == n) ≡ true
==_refl m n e = ground (arith, e)

if-some :
    (flag : Bool) (c d : ℕ) → (if flag then some c else none) ≡ some d → (flag ≡ true) × (c ≡ d)
if-some true c d e = (refl, cc e)
if-some false c d e = absurd (cc e)

module _ {κ} {S : Type κ} (kernel : Epoll S) where
  -- The call succeeds, and changes the interest in this descriptor only.
  pub record Updates (s : S) (fd : ℕ) (now : Option (ℕ × ℕ)) (ret : Option S) : Type κ where
    pub after : S
    pub is_ok : ret ≡ some after
    pub interest : (g : ℕ) → kernel.interest after g ≡ set_at (kernel.interest s) fd now g

  -- What epoll_ctl(2) promises: a descriptor is added when it was not watched, and changed or taken
  -- out when it was.
  pub record IsEpoll : Type κ where
    pub add :
        (s : S) (fd : ℕ) (event : ℕ × ℕ)
        → kernel.interest s fd ≡ none
        → Updates s fd (some event) (kernel.ctl_add s fd event)
    pub modify :
        (s : S) (fd : ℕ) (event old : ℕ × ℕ)
        → kernel.interest s fd ≡ some old
        → Updates s fd (some event) (kernel.ctl_mod s fd event)
    pub delete :
        (s : S) (fd : ℕ) (old : ℕ × ℕ)
        → kernel.interest s fd ≡ some old
        → Updates s fd none (kernel.ctl_del s fd)

  unfoldable pub watch : (ℕ → Entry) → Option ℕ → Option (ℕ × ℕ)
  watch store none = none
  watch store (some c) = some ((store c).channel.events, c)

  -- The kernel watches each descriptor in the map for the events of its channel, and no other; the
  -- channels in the map are those that are flagged as registered.
  pub record Agrees (p : Poller S) : Type 0 where
    pub watched : (fd : ℕ) → kernel.interest p.epoll fd ≡ watch p.store (p.channels fd)
    pub registered :
        (c : ℕ)
        → (p.store c).channel.registered_to_poller ≡ true
        → p.channels (p.store c).fd ≡ some c
    pub listed_fd : (fd c : ℕ) → p.channels fd ≡ some c → (p.store c).fd ≡ fd
    pub listed :
        (fd c : ℕ) → p.channels fd ≡ some c → (p.store c).channel.registered_to_poller ≡ true

  -- No other channel has the descriptor of this one.
  abbrev pub IsAlone : Poller S → ℕ → Type 0
  IsAlone p c = (d : ℕ) → p.channels (p.store c).fd ≡ some d → d ≡ c

  -- One channel was registered or taken out, and nothing else changed.
  pub record Sets (p : Poller S) (c : ℕ) (flag : Bool) (events : ℕ) (p' : Poller S) : Type 0 where
    pub fd : (p'.store c).fd ≡ (p.store c).fd
    pub flag_is : (p'.store c).channel.registered_to_poller ≡ flag
    pub events_are : (p'.store c).channel.events ≡ events
    pub others : (d : ℕ) → (d == c) ≡ false → p'.store d ≡ p.store d
    pub channels :
        (g : ℕ) → p'.channels g ≡ set_at p.channels (p.store c).fd (if flag then some c else none) g
    pub interest :
        (g : ℕ)
        → kernel.interest p'.epoll g
          ≡ set_at
              (kernel.interest p.epoll)
              (p.store c).fd
              (if flag then some (events, c) else none)
              g

  watch-others :
      (p p' : Poller S) (c : ℕ)
      → ((d : ℕ) → (d == c) ≡ false → p'.store d ≡ p.store d)
      → (o : Option ℕ) → ((d : ℕ) → o ≡ some d → (d == c) ≡ false)
      → watch p'.store o ≡ watch p.store o
  unfolding watch
  watch-others p p' c same none others = refl
  watch-others p p' c same (some d) others = rw (same d (others d refl)) refl

  -- What the kernel watches for a registered channel.
  pub on-interest :
      (p : Poller S) (c : ℕ)
      → Agrees p
      → (p.store c).channel.registered_to_poller ≡ true
      → kernel.interest p.epoll (p.store c).fd ≡ some ((p.store c).channel.events, c)
  unfolding watch
  on-interest p c agrees on =
      agrees.watched (p.store c).fd ∙ ap (watch p.store) (agrees.registered c on)

  watch-if :
      (store : ℕ → Entry) (c : ℕ) (flag : Bool)
      → watch store (if flag then some c else none)
        ≡ (if flag then some ((store c).channel.events, c) else none)
  unfolding watch
  watch-if store c true = refl
  watch-if store c false = refl

  module _ (p p' : Poller S) (c : ℕ) (flag : Bool) (events : ℕ) (agrees : Agrees p)
      (alone : IsAlone p c) (s : Sets p c flag events p') where
    -- A channel that is listed under another descriptor is another channel.
    other-listed :
        (g d : ℕ) → (g == (p.store c).fd) ≡ false → p.channels g ≡ some d → (d == c) ≡ false
    other-listed g d other e = elim (Bool-cases (d == c)) [
      | inr different ↦ different
      | inl same ↦
          let same_fd : g ≡ (p.store c).fd =
            sym (agrees.listed_fd g d e) ∙ ap (λ d'. (p.store d').fd) (==_true d c same) in
          absurd (cc (==_refl g (p.store c).fd same_fd, other))
    ]

    now_listed :
        (g : ℕ) → (g == (p.store c).fd) ≡ true → p'.channels g ≡ (if flag then some c else none)
    now_listed g same = s.channels g ∙ set_at-same p.channels (p.store c).fd _ g same

    still_listed : (g : ℕ) → (g == (p.store c).fd) ≡ false → p'.channels g ≡ p.channels g
    still_listed g other = s.channels g ∙ set_at-other p.channels (p.store c).fd _ g other

    Sets-watched : (g : ℕ) → kernel.interest p'.epoll g ≡ watch p'.store (p'.channels g)
    Sets-watched g = elim (Bool-cases (g == (p.store c).fd)) [
      | inl same ↦
          s.interest g
          ∙ set_at-same (kernel.interest p.epoll) (p.store c).fd _ g same
          ∙ ap (λ mask. if flag then some (mask, c) else none) (sym s.events_are)
          ∙ sym (watch-if p'.store c flag)
          ∙ ap (watch p'.store) (sym (now_listed g same))
      | inr other ↦
          s.interest g
          ∙ set_at-other (kernel.interest p.epoll) (p.store c).fd _ g other
          ∙ agrees.watched g
          ∙ sym (watch-others p p' c s.others (p.channels g) (λ d e. other-listed g d other e))
          ∙ ap (watch p'.store) (sym (still_listed g other))
    ]

    now_registered :
        (p'.store c).channel.registered_to_poller ≡ true → p'.channels (p'.store c).fd ≡ some c
    now_registered on =
        ap p'.channels s.fd
        ∙ now_listed (p.store c).fd (==_refl (p.store c).fd (p.store c).fd refl)
        ∙ ap (λ b. if b then some c else none) (sym s.flag_is ∙ on)

    -- Another registered channel has another descriptor.
    still_registered :
        (d : ℕ)
        → (d == c) ≡ false
        → p.channels (p.store d).fd ≡ some d
        → p'.channels (p.store d).fd ≡ some d
    still_registered d different kept = elim (Bool-cases ((p.store d).fd == (p.store c).fd)) [
      | inr other ↦ still_listed (p.store d).fd other ∙ kept
      | inl same ↦
          let d≡c : d ≡ c =
            alone d (ap p.channels (sym (==_true (p.store d).fd (p.store c).fd same)) ∙ kept) in
          absurd (cc (==_refl d c d≡c, different))
    ]

    Sets-registered :
        (d : ℕ)
        → (p'.store d).channel.registered_to_poller ≡ true
        → p'.channels (p'.store d).fd ≡ some d
    Sets-registered d on = elim (Bool-cases (d == c)) [
      | inl same ↦
          subst
            (λ c'.
              (p'.store c').channel.registered_to_poller ≡ true
              → p'.channels (p'.store c').fd ≡ some c')
            (sym (==_true d c same)) now_registered on
      | inr different ↦
          let same_entry : p'.store d ≡ p.store d = s.others d different in
          let was_on : (p.store d).channel.registered_to_poller ≡ true =
            sym (ap (λ entry. entry.channel.registered_to_poller) same_entry) ∙ on in
          ap (λ entry. p'.channels entry.fd) same_entry
          ∙ still_registered d different (agrees.registered d was_on)
    ]

    Sets-listed :
        (g d : ℕ)
        → p'.channels g ≡ some d
        → ((p'.store d).fd ≡ g) × ((p'.store d).channel.registered_to_poller ≡ true)
    Sets-listed g d e = elim (Bool-cases (g == (p.store c).fd)) [
      | inl same ↦
          let found = if-some flag c d (sym (now_listed g same) ∙ e) in
          subst (λ c'. ((p'.store c').fd ≡ g) × ((p'.store c').channel.registered_to_poller ≡ true))
            found.1 (s.fd ∙ sym (==_true g (p.store c).fd same), s.flag_is ∙ found.0)
      | inr other ↦
          let kept : p.channels g ≡ some d = sym (still_listed g other) ∙ e in
          let same_entry : p'.store d ≡ p.store d = s.others d (other-listed g d other kept) in
          (
            ap (λ entry. entry.fd) same_entry ∙ agrees.listed_fd g d kept,
            ap (λ entry. entry.channel.registered_to_poller) same_entry ∙ agrees.listed g d kept,
          )
    ]

    pub Sets-Agrees : Agrees p'
    Sets-Agrees = record {
      watched = Sets-watched;
      registered = Sets-registered;
      listed_fd = λ g d e. (Sets-listed g d e).0;
      listed = λ g d e. (Sets-listed g d e).1;
    }
