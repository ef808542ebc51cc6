-- ===== src/Reactor/Poller.antt =====
-- src/reactor/Poller.h and Poller.cc with the registration of src/reactor/Channel.cc: the channels
-- that epoll(7) watches. A pointer to a channel is a number, and `store` is what it points to. The
-- map from descriptors to channels is a function.
pub mod Registered
pub mod Changes
pub mod Active
mod Tests
use wethands.Prelude.{
  ℕ, ◌*◌, ◌≡◌, Bool, true, false, Option, none, some, List, [], ◌∷◌, ◌==◌, length, if◌then◌else◌,
  Result, ok, fault, aborted, assert_failed, assert, ◌>>=◌, ◌>>◌,
}
use wethands.Reactor.Channel.{Channel, update_revents, none_event}

-- What epoll_ctl(2) and epoll_wait(2) promise. `interest` is what a descriptor is watched for, with
-- the pointer that was given; `none` as the result of a call is -1.
pub record Epoll {κ} (S : Type κ) : Type κ where
  pub interest : S → ℕ → Option (ℕ × ℕ)
  pub ctl_add : S → ℕ → ℕ × ℕ → Option S
  pub ctl_mod : S → ℕ → ℕ × ℕ → Option S
  pub ctl_del : S → ℕ → Option S
  pub wait : S → ℕ → Option (List (ℕ × ℕ))

-- A descriptor with its channel.
pub record Entry : Type 0 where
  pub fd : ℕ
  pub channel : Channel

pub record Poller {κ} (S : Type κ) : Type κ where
  pub store : ℕ → Entry
  pub epoll : S
  pub channels : ℕ → Option ℕ
  pub events_size : ℕ

-- A function with another value at one place.
unfoldable pub set_at {ℓ} : {A : Type ℓ} → (ℕ → A) → ℕ → A → ℕ → A
set_at f n a m = if m == n then a else f m

unfoldable pub set_channel {κ} : {S : Type κ} → Poller S → ℕ → Channel → Poller S
set_channel p c channel = record p {
  store = set_at p.store c (record { fd = (p.store c).fd; channel = channel });
}

module _ {κ} {S : Type κ} (kernel : Epoll S) where
  unfoldable pub update_channel : Poller S → ℕ → Result (Poller S)
  update_channel p c =
      let entry = p.store c in
      let event : ℕ × ℕ = (entry.channel.events, c) in
      let ret =
        if entry.channel.registered_to_poller
        then kernel.ctl_mod p.epoll entry.fd event
        else kernel.ctl_add p.epoll entry.fd event in
      elim ret [
        | none ↦ fault aborted
        | some epoll ↦
            ok (record p { epoll = epoll; channels = set_at p.channels entry.fd (some c) })
      ]

  -- An error is -1, which is not ENOENT.
  unfoldable pub remove_channel : Poller S → ℕ → Result (Poller S)
  remove_channel p c = elim (kernel.ctl_del p.epoll (p.store c).fd) [
    | none ↦ fault aborted
    | some epoll ↦ ok (record p { epoll = epoll; channels = set_at p.channels (p.store c).fd none })
  ]

  -- `RegisterToPoller`.
  unfoldable pub register_to_poller : Poller S → ℕ → Result (Poller S)
  register_to_poller p c = do
    p' ← update_channel p c
    ok (set_channel p' c (record (p'.store c).channel { registered_to_poller = true }))

  -- `EnableReading`, `DisableReading` and so on, which come to this mask.
  unfoldable pub change_events : Poller S → ℕ → ℕ → Result (Poller S)
  change_events p c events =
      register_to_poller (set_channel p c (record (p.store c).channel { events = events })) c

  unfoldable pub remove_from_poller : Poller S → ℕ → Result (Poller S)
  remove_from_poller p c = do
    assert ((p.store c).channel.events == none_event)
    p' ← remove_channel p c
    ok (set_channel p' c (record (p'.store c).channel { registered_to_poller = false }))

  -- The channels of the events that are reported, and what each is marked with.
  unfoldable pub mark_active : Poller S → List (ℕ × ℕ) → Poller S
  mark_active p [] = p
  mark_active p (event ∷ events) =
      mark_active (set_channel p event.1 (update_revents (p.store event.1).channel event.0)) events

  unfoldable pub pointers : List (ℕ × ℕ) → List ℕ
  pointers [] = []
  pointers (event ∷ events) = event.1 ∷ pointers events

  -- The room for events is doubled when it was used up.
  unfoldable pub grow : Poller S → ℕ → Poller S
  grow p num_events =
      if num_events == p.events_size then record p { events_size = p.events_size * 2 } else p

  -- `Poll` with no active channels before; after an error the last assertion fails.
  unfoldable pub poll : Poller S → Result (Poller S × List ℕ)
  poll p = elim (kernel.wait p.epoll p.events_size) [
    | none ↦ fault assert_failed
    | some events ↦ ok (grow (mark_active p events) (length events), pointers events)
  ]

unfoldable pub has_channel {κ} : {S : Type κ} → Poller S → ℕ → Bool
has_channel p c = elim (p.channels (p.store c).fd) [ none ↦ false | some c' ↦ c' == c ]
