-- ===== src/Reactor/Poller/Tests.antt =====
-- A poller with one channel, over a kernel that keeps its interests in a function.
use std.Path.{subst}
use wethands.Prelude.{
  ℕ, ◌≡◌, refl, sym, ap, ◌∙◌, inl, inr, true, false, Option, none, some, List, [], ◌∷◌, ◌==◌,
  Bool-cases, if◌then◌else◌, Returns, arith,
}
use wethands.Reactor.Channel.{none_event}
use wethands.Reactor.Poller.{Epoll, Poller, set_at, change_events, remove_from_poller, poll}
use wethands.Reactor.Poller.Registered.{IsEpoll, watch, Agrees, Sets, ==_true}
use wethands.Reactor.Poller.Changes.{change_events-Agrees, remove_from_poller-Agrees}
use wethands.Reactor.Poller.Active.{AreWatched, IsWait, Polled, poll_lem}

abbrev Interests : Type 0
Interests = ℕ → Option (ℕ × ℕ)

-- One event of the descriptor 0, if it is watched.
abbrev report_of : Option (ℕ × ℕ) → List (ℕ × ℕ)
report_of none = []
report_of (some event) = (1, event.1) ∷ []

abbrev kernel : Epoll Interests
kernel = record {
  interest = λ s. s;
  ctl_add = λ s fd event. elim (s fd) [ none ↦ some (set_at s fd (some event)) | some old ↦ none ];
  ctl_mod = λ s fd event. elim (s fd) [ none ↦ none | some old ↦ some (set_at s fd (some event)) ];
  ctl_del = λ s fd. elim (s fd) [ none ↦ none | some old ↦ some (set_at s fd none) ];
  wait = λ s n. some (report_of (s 0));
}

kernel-IsEpoll : IsEpoll kernel
kernel-IsEpoll = record {
  add = λ s fd event e. record {
    after = set_at s fd (some event);
    is_ok = rw e refl;
    interest = λ g. refl;
  };
  modify = λ s fd event old e. record {
    after = set_at s fd (some event);
    is_ok = rw e refl;
    interest = λ g. refl;
  };
  delete =
      λ s fd old e. record { after = set_at s fd none; is_ok = rw e refl; interest = λ g. refl };
}

some_inj : {A : Type 0} {a b : A} → some a ≡ some b → a ≡ b
some_inj e = cc e

report_of-AreWatched :
    (s : Interests) (o : Option (ℕ × ℕ)) → s 0 ≡ o → AreWatched kernel s (report_of o)
unfolding AreWatched
report_of-AreWatched s none e = tt
report_of-AreWatched s (some event) e = ((0, event.0, e), tt)

kernel-IsWait : IsWait kernel
kernel-IsWait = record {
  reports =
      λ s n events e. subst (AreWatched kernel s) (some_inj e) (report_of-AreWatched s (s 0) refl);
}

-- The channel 0, with the descriptor 0, is registered with no events.
abbrev watching : Poller Interests
watching = record {
  store = λ c. record {
    fd = c;
    channel = record { registered_to_poller = c == 0; events = 0; revents = 0 };
  };
  epoll = λ fd. if fd == 0 then some (0, 0) else none;
  channels = λ fd. if fd == 0 then some 0 else none;
  events_size = 16;
}

only_zero : (fd c : ℕ) → (if fd == 0 then some 0 else none) ≡ some c → (fd ≡ 0) × (c ≡ 0)
only_zero fd c e = elim (Bool-cases (fd == 0)) [
  | inl same ↦ (==_true fd 0 same, sym (some_inj (rw (same) at e)))
  | inr other ↦ absurd (cc (rw (other) at e))
]

watching-Agrees : Agrees kernel watching
unfolding watch
watching-Agrees = record {
  watched = λ fd. elim (Bool-cases (fd == 0)) [ inl e ↦ rw e refl | inr e ↦ rw e refl ];
  registered = λ c on. rw (on) (ap some (sym (==_true c 0 on)));
  listed_fd = λ fd c e. (only_zero fd c e).1 ∙ sym (only_zero fd c e).0;
  listed = λ fd c e. ground (arith, (only_zero fd c e).1);
}

change_events-Agrees_example :
    Returns
      (change_events kernel watching 3 1)
      (λ p'. Agrees kernel p' × Sets kernel watching 3 true 1 p')
change_events-Agrees_example =
    change_events-Agrees kernel kernel-IsEpoll watching 3 1 watching-Agrees (λ d e. absurd (cc e))

remove_from_poller-Agrees_example :
    Returns
      (remove_from_poller kernel watching 0)
      (λ p'. Agrees kernel p' × Sets kernel watching 0 false none_event p')
remove_from_poller-Agrees_example =
    remove_from_poller-Agrees kernel kernel-IsEpoll watching 0 watching-Agrees refl refl

poll_lem_example :
    Returns (poll kernel watching) (λ r. Polled kernel watching ((1, 0) ∷ []) r.0 r.1)
poll_lem_example = poll_lem kernel kernel-IsWait watching ((1, 0) ∷ []) watching-Agrees refl
