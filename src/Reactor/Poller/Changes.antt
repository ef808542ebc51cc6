-- ===== src/Reactor/Poller/Changes.antt =====
-- What registering a channel and taking it out do.
use std.Path.{subst}
use wethands.Prelude.{
  ℕ, ◌≡◌, inl, inr, refl, sym, ap, ◌∙◌, Bool, true, false, none, some, Option-cases, if◌then◌else◌,
  ◌==◌, ok, Returns, Returns-map, arith,
}
use wethands.Reactor.Channel.{none_event}
use wethands.Reactor.Poller.{
  Epoll, Entry, Poller, set_at, set_channel, update_channel, remove_channel, register_to_poller,
  change_events, remove_from_poller,
}
use wethands.Reactor.Poller.Registered.{
  on-interest, Updates, IsEpoll, watch, Agrees, IsAlone, Sets, Sets-Agrees, set_at-same,
  set_at-other, ==_refl,
}

module _ {κ} {S : Type κ} (kernel : Epoll S) (is_epoll : IsEpoll kernel) where
  ctl-Updates :
      (flag : Bool) (s : S) (fd : ℕ) (event : ℕ × ℕ)
      → (flag ≡ true → (old : ℕ × ℕ) × (kernel.interest s fd ≡ some old))
      → (flag ≡ false → kernel.interest s fd ≡ none)
      → Updates kernel s fd
          (some event)
          (if flag then kernel.ctl_mod s fd event else kernel.ctl_add s fd event)
  ctl-Updates true s fd event was_on was_off =
      let old = was_on refl in is_epoll.modify s fd event old.0 old.1
  ctl-Updates false s fd event was_on was_off = is_epoll.add s fd event (was_off refl)

  -- What the kernel watches for a channel that is not registered.
  off-interest :
      (p : Poller S) (c : ℕ)
      → Agrees kernel p
      → IsAlone kernel p c
      → (p.store c).channel.registered_to_poller ≡ false
      → kernel.interest p.epoll (p.store c).fd ≡ none
  unfolding watch
  off-interest p c agrees alone off = elim (Option-cases (p.channels (p.store c).fd)) [
    | inl absent ↦ agrees.watched (p.store c).fd ∙ ap (watch kernel p.store) absent
    | inr (d, e) ↦
        let e' : p.channels (p.store c).fd ≡ some c = e ∙ ap some (alone d e) in
        absurd (cc (agrees.listed (p.store c).fd c e', off))
  ]

  update_channel-ok :
      (q : Poller S) (c : ℕ)
      → (u : Updates kernel q.epoll (q.store c).fd (some ((q.store c).channel.events, c)) (
          if (q.store c).channel.registered_to_poller
          then kernel.ctl_mod q.epoll (q.store c).fd ((q.store c).channel.events, c)
          else kernel.ctl_add q.epoll (q.store c).fd ((q.store c).channel.events, c)))
      → update_channel kernel q c
        ≡ ok (record q { epoll = u.after; channels = set_at q.channels (q.store c).fd (some c) })
  unfolding update_channel
  update_channel-ok q c u = rw (update_channel, u.is_ok) refl

  change_events-Sets :
      (p : Poller S) (c events : ℕ)
      → Agrees kernel p
      → IsAlone kernel p c
      → Returns (change_events kernel p c events) (Sets kernel p c true events)
  unfolding change_events register_to_poller update_channel set_channel
  change_events-Sets p c events agrees alone =
      let new_entry : Entry = record {
        fd = (p.store c).fd;
        channel = record (p.store c).channel { events = events };
      } in
      let q : Poller S = record p { store = set_at p.store c new_entry } in
      let same_entry : q.store c ≡ new_entry =
        set_at-same p.store c new_entry c (==_refl c c refl) in
      let u =
        subst
          (λ entry. Updates kernel p.epoll entry.fd (some (entry.channel.events, c)) (
            if entry.channel.registered_to_poller
            then kernel.ctl_mod p.epoll entry.fd (entry.channel.events, c)
            else kernel.ctl_add p.epoll entry.fd (entry.channel.events, c)))
          (sym same_entry)
          (ctl-Updates (p.store c).channel.registered_to_poller p.epoll (p.store c).fd (events, c)
            (λ on. (_, on-interest kernel p c agrees on))
            (λ off. off-interest p c agrees alone off)) in
      rw (update_channel-ok q c u) (record {
        fd =
            ap (λ entry. entry.fd) (set_at-same q.store c _ c (==_refl c c refl))
            ∙ ap (λ entry. entry.fd) same_entry;
        flag_is =
            ap (λ entry. entry.channel.registered_to_poller)
              (set_at-same q.store c _ c (==_refl c c refl));
        events_are =
            ap (λ entry. entry.channel.events) (set_at-same q.store c _ c (==_refl c c refl))
            ∙ ap (λ entry. entry.channel.events) same_entry;
        others = λ d different.
            set_at-other q.store c _ d different ∙ set_at-other p.store c _ d different;
        channels = λ g. ap (λ entry. set_at p.channels entry.fd (some c) g) same_entry;
        interest = λ g.
            u.interest g
            ∙ ap
                (λ entry.
                  set_at (kernel.interest p.epoll) entry.fd (some (entry.channel.events, c)) g)
                same_entry;
      })

  remove_from_poller-Sets :
      (p : Poller S) (c : ℕ)
      → Agrees kernel p
      → (p.store c).channel.registered_to_poller ≡ true
      → (p.store c).channel.events ≡ none_event
      → Returns (remove_from_poller kernel p c) (Sets kernel p c false none_event)
  unfolding remove_from_poller remove_channel set_channel
  remove_from_poller-Sets p c agrees on no_events =
      let u = is_epoll.delete p.epoll (p.store c).fd _ (on-interest kernel p c agrees on) in
      let silent : ((p.store c).channel.events == none_event) ≡ true = ground (arith, no_events) in
      rw (silent, remove_channel, u.is_ok)
        (record {
          fd = ap (λ entry. entry.fd) (set_at-same p.store c _ c (==_refl c c refl));
          flag_is =
              ap (λ entry. entry.channel.registered_to_poller)
                (set_at-same p.store c _ c (==_refl c c refl));
          events_are =
              ap (λ entry. entry.channel.events) (set_at-same p.store c _ c (==_refl c c refl))
              ∙ no_events;
          others = λ d different. set_at-other p.store c _ d different;
          channels = λ g. refl;
          interest = u.interest;
        })

  -- Changing the events of a channel that is alone with its descriptor succeeds, whether or not it
  -- was registered before; then it is registered, the kernel watches it for just these events and
  -- all others as before, and the poller's map, the flags and the kernel agree again.
  pub change_events-Agrees :
      (p : Poller S) (c events : ℕ)
      → Agrees kernel p
      → IsAlone kernel p c
      → Returns
          (change_events kernel p c events)
          (λ p'. Agrees kernel p' × Sets kernel p c true events p')
  change_events-Agrees p c events agrees alone =
      Returns-map (Sets kernel p c true events) _ _ (change_events-Sets p c events agrees alone)
        (λ p' s. (Sets-Agrees kernel p p' c true events agrees alone s, s))

  -- Taking out a registered channel with no events succeeds; then its flag is off, the kernel does
  -- not watch its descriptor and all others as before, and the map, the flags and the kernel agree.
  pub remove_from_poller-Agrees :
      (p : Poller S) (c : ℕ)
      → Agrees kernel p
      → (p.store c).channel.registered_to_poller ≡ true
      → (p.store c).channel.events ≡ none_event
      → Returns
          (remove_from_poller kernel p c)
          (λ p'. Agrees kernel p' × Sets kernel p c false none_event p')
  remove_from_poller-Agrees p c agrees on no_events =
      let alone : IsAlone kernel p c = λ d e. cc (e, agrees.registered c on) in
      Returns-map (Sets kernel p c false none_event) _ _
        (remove_from_poller-Sets p c agrees on no_events)
        (λ p' s. (Sets-Agrees kernel p p' c false none_event agrees alone s, s))
