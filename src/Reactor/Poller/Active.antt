-- ===== src/Reactor/Poller/Active.antt =====
-- What a poll reports.
use wethands.Prelude.{
  ℕ, ◌*◌, ◌≡◌, refl, sym, ap, ◌∙◌, inl, inr, true, Option, none, some, List, [], ◌∷◌, Bool-cases,
  length, if_lem, ◌==◌, Returns, if◌then◌else◌,
}
use wethands.Reactor.Channel.{update_revents}
use wethands.Reactor.Poller.{
  Epoll, Entry, Poller, set_at, set_channel, mark_active, pointers, grow, poll,
}
use wethands.Reactor.Poller.Registered.{
  Agrees, IsAlone, Sets, Sets-Agrees, set_at-same, set_at-other, ==_refl, ==_true, watch,
  on-interest,
}

-- To set a value that is there already changes nothing.
set_at-there {ℓ} : {A : Type ℓ} (f : ℕ → A) (n : ℕ) (a : A) (m : ℕ) → f n ≡ a → f m ≡ set_at f n a m
set_at-there f n a m there = elim (Bool-cases (m == n)) [
  | inl same ↦ ap f (==_true m n same) ∙ there ∙ sym (set_at-same f n a m same)
  | inr other ↦ sym (set_at-other f n a m other)
]

-- The mask of the last event with this pointer, and `old` when there is none.
unfoldable pub last_mask : List (ℕ × ℕ) → ℕ → ℕ → ℕ
last_mask [] c old = old
last_mask (event ∷ events) c old = last_mask events c (if c == event.1 then event.0 else old)

module _ {κ} {S : Type κ} (kernel : Epoll S) where
  -- Each event has the pointer that some watched descriptor was given with.
  unfoldable pub AreWatched : S → List (ℕ × ℕ) → Type 0
  AreWatched s [] = Unit
  AreWatched s (event ∷ events) =
      ((fd : ℕ) × (mask : ℕ) × (kernel.interest s fd ≡ some (mask, event.1))) × AreWatched s events

  -- What epoll_wait(2) promises.
  pub record IsWait : Type κ where
    pub reports :
        (s : S) (n : ℕ) (events : List (ℕ × ℕ))
        → kernel.wait s n ≡ some events
        → AreWatched s events

  -- All these channels are registered.
  unfoldable pub AreRegistered : Poller S → List ℕ → Type 0
  AreRegistered p [] = Unit
  AreRegistered p (c ∷ cs) = ((p.store c).channel.registered_to_poller ≡ true) × AreRegistered p cs

  watch-some :
      (store : ℕ → Entry) (o : Option ℕ) (mask c : ℕ)
      → watch kernel store o ≡ some (mask, c)
      → o ≡ some c
  unfolding watch
  watch-some store none mask c e = absurd (cc e)
  watch-some store (some d) mask c e = cc e

  -- A watched pointer is a registered channel.
  watched-registered :
      (p : Poller S) (fd mask c : ℕ)
      → Agrees kernel p
      → kernel.interest p.epoll fd ≡ some (mask, c)
      → (p.store c).channel.registered_to_poller ≡ true
  watched-registered p fd mask c agrees e =
      agrees.listed fd c (watch-some p.store (p.channels fd) mask c (sym (agrees.watched fd) ∙ e))

  -- Marking a registered channel changes nothing but its mark.
  unfoldable mark : Poller S → ℕ → ℕ → Poller S
  mark p c revents = set_channel p c (update_revents (p.store c).channel revents)

  mark-Sets :
      (p : Poller S) (c revents : ℕ)
      → Agrees kernel p
      → (p.store c).channel.registered_to_poller ≡ true
      → Sets kernel p c true (p.store c).channel.events (mark p c revents)
  unfolding mark set_channel update_revents
  mark-Sets p c revents agrees on =
      let entry : Entry = record {
        fd = (p.store c).fd;
        channel = record (p.store c).channel { revents = revents };
      } in
      let here : set_at p.store c entry c ≡ entry =
        set_at-same p.store c entry c (==_refl c c refl) in
      record {
        fd = ap (λ x. x.fd) here;
        flag_is = ap (λ x. x.channel.registered_to_poller) here ∙ on;
        events_are = ap (λ x. x.channel.events) here;
        others = λ d different. set_at-other p.store c _ d different;
        channels = λ g. set_at-there p.channels (p.store c).fd (some c) g (agrees.registered c on);
        interest = λ g.
            set_at-there (kernel.interest p.epoll) (p.store c).fd _ g
              (on-interest kernel p c agrees on);
      }

  mark-flag :
      (p : Poller S) (c revents d : ℕ)
      → ((mark p c revents).store d).channel.registered_to_poller
        ≡ (p.store d).channel.registered_to_poller
  unfolding mark set_channel update_revents
  mark-flag p c revents d = elim (Bool-cases (d == c)) [
    | inl same ↦
        ap (λ x. x.channel.registered_to_poller) (set_at-same p.store c _ d same)
        ∙ ap (λ d'. (p.store d').channel.registered_to_poller) (sym (==_true d c same))
    | inr different ↦
        ap (λ x. x.channel.registered_to_poller) (set_at-other p.store c _ d different)
  ]

  mark-revents :
      (p : Poller S) (c revents d : ℕ)
      → ((mark p c revents).store d).channel.revents
        ≡ (if d == c then revents else (p.store d).channel.revents)
  unfolding mark set_channel update_revents
  mark-revents p c revents d = elim (Bool-cases (d == c)) [
    | inl same ↦ rw same (ap (λ x. x.channel.revents) (set_at-same p.store c _ d same))
    | inr different ↦
        rw different (ap (λ x. x.channel.revents) (set_at-other p.store c _ d different))
  ]

  mark_active-flag :
      (events : List (ℕ × ℕ)) (p : Poller S) (d : ℕ)
      → ((mark_active kernel p events).store d).channel.registered_to_poller
        ≡ (p.store d).channel.registered_to_poller
  unfolding mark_active mark
  mark_active-flag [] p d = refl
  mark_active-flag (event ∷ events) p d =
      mark_active-flag events (mark p event.1 event.0) d ∙ mark-flag p event.1 event.0 d

  mark_active-Agrees :
      (events : List (ℕ × ℕ)) (p : Poller S)
      → Agrees kernel p
      → AreWatched p.epoll events
      → Agrees kernel (mark_active kernel p events)
  unfolding mark_active mark AreWatched set_channel
  mark_active-Agrees [] p agrees watched = agrees
  mark_active-Agrees (event ∷ events) p agrees watched =
      let on = watched-registered p watched.0.0 watched.0.1 event.1 agrees watched.0.2 in
      let alone : IsAlone kernel p event.1 = λ d e. cc (e, agrees.registered event.1 on) in
      mark_active-Agrees events (mark p event.1 event.0)
        (Sets-Agrees kernel p (mark p event.1 event.0) event.1 true _ agrees alone
          (mark-Sets p event.1 event.0 agrees on))
        watched.1

  pointers-AreRegistered :
      (events : List (ℕ × ℕ)) (p q : Poller S)
      → Agrees kernel p
      → AreWatched p.epoll events
      → ((d : ℕ)
          → (q.store d).channel.registered_to_poller ≡ (p.store d).channel.registered_to_poller)
      → AreRegistered q (pointers kernel events)
  unfolding AreWatched AreRegistered pointers
  pointers-AreRegistered [] p q agrees watched same = tt
  pointers-AreRegistered (event ∷ events) p q agrees watched same = (
    same event.1 ∙ watched-registered p watched.0.0 watched.0.1 event.1 agrees watched.0.2,
    pointers-AreRegistered events p q agrees watched.1 same,
  )

  same_tables :
      {p : Poller S} {size : ℕ} → Agrees kernel p → Agrees kernel (record p { events_size = size })
  same_tables agrees = record {
    watched = agrees.watched;
    registered = agrees.registered;
    listed_fd = agrees.listed_fd;
    listed = agrees.listed;
  }

  mark_active-revents :
      (events : List (ℕ × ℕ)) (p : Poller S) (c : ℕ)
      → ((mark_active kernel p events).store c).channel.revents
        ≡ last_mask events c (p.store c).channel.revents
  unfolding mark_active mark last_mask
  mark_active-revents [] p c = refl
  mark_active-revents (event ∷ events) p c =
      mark_active-revents events (mark p event.1 event.0) c
      ∙ ap (last_mask events c) (mark-revents p event.1 event.0 c)

  mark_active-size :
      (events : List (ℕ × ℕ)) (p : Poller S)
      → (mark_active kernel p events).events_size ≡ p.events_size
  unfolding mark_active mark set_channel
  mark_active-size [] p = refl
  mark_active-size (event ∷ events) p = mark_active-size events (mark p event.1 event.0)

  -- What a poll makes of the events that the kernel reports.
  pub record Polled (p : Poller S) (events : List (ℕ × ℕ)) (p' : Poller S) (active : List ℕ)
      : Type κ where
    pub in_order : active ≡ pointers kernel events
    pub registered : AreRegistered p' active
    pub revents_are :
        (c : ℕ) → (p'.store c).channel.revents ≡ last_mask events c (p.store c).channel.revents
    pub room :
        p'.events_size
        ≡ (if length events == p.events_size then p.events_size * 2 else p.events_size)
    pub agrees : Agrees kernel p'

  -- When epoll_wait(2) succeeds, a poll faults in no way: the active channels are those of its
  -- events in their order, and each of them is registered; every channel is marked with the mask of
  -- its last event, and one without an event keeps its mark; the room for events is doubled when
  -- the events filled it; and the map, the flags and the kernel still agree.
  pub poll_lem :
      (is_wait : IsWait) (p : Poller S) (events : List (ℕ × ℕ))
      → Agrees kernel p
      → kernel.wait p.epoll p.events_size ≡ some events
      → Returns (poll kernel p) (λ r. Polled p events r.0 r.1)
  unfolding poll grow
  poll_lem is_wait p events agrees e =
      let watched = is_wait.reports p.epoll p.events_size events e in
      let after : Poller S = mark_active kernel p events in
      let size = mark_active-size events p in
      let keeps : (n : ℕ)
          → n ≡ (if length events == p.events_size then p.events_size * 2 else p.events_size)
          → Polled p events (record after { events_size = n }) (pointers kernel events) =
        λ n e'. record {
          in_order = refl;
          registered = pointers-AreRegistered events p _ agrees watched (mark_active-flag events p);
          revents_are = mark_active-revents events p;
          room = e';
          agrees = same_tables (mark_active-Agrees events p agrees watched);
        } in
      rw (poll, e)
        (if_lem (λ q. Polled p events q (pointers kernel events))
          (length events == after.events_size)
          (record after { events_size = after.events_size * 2 }) after
          (λ full. keeps (after.events_size * 2) (rw (rw size at full, size) refl))
          (λ room. keeps after.events_size (rw (rw size at room, size) refl)))
