-- ===== src/Reactor/Channel.antt =====
-- src/reactor/Channel.h and Channel.cc: the event mask of a descriptor and its dispatch.
-- An `int` mask is its 32-bit pattern.
pub mod Mask
mod Tests
use Prim.Native.Nat.{bit_and, bit_or}
use wethands.Prelude.{
  ℕ, ◌+◌, ◌-◌, ◌^◌, Bool, true, false, not, ◌&&◌, ◌||◌, ◌==◌, Result, ok, ◌>>=◌, ◌>>◌, assert,
  if◌then◌else◌,
}

-- The bits of <sys/epoll.h>.
abbrev pub epollin : ℕ
epollin = 0x001

abbrev pub epollpri : ℕ
epollpri = 0x002

abbrev pub epollout : ℕ
epollout = 0x004

abbrev pub epollerr : ℕ
epollerr = 0x008

abbrev pub epollhup : ℕ
epollhup = 0x010

abbrev pub epollrdhup : ℕ
epollrdhup = 0x2000

-- `a && b` on `int`, as an `int`.
abbrev pub logical_and : ℕ → ℕ → ℕ
logical_and a b = if not (a == 0) && not (b == 0) then 1 else 0

abbrev pub none_event : ℕ
none_event = 0

-- `EPOLLIN && EPOLLPRI`, which is 1.
abbrev pub read_event : ℕ
read_event = logical_and epollin epollpri

abbrev pub write_event : ℕ
write_event = epollout

-- `~mask`.
abbrev pub complement : ℕ → ℕ
complement mask = 2 ^ 32 - 1 - mask

pub record Channel : Type 0 where
  pub registered_to_poller : Bool
  pub events : ℕ
  pub revents : ℕ

unfoldable pub new_channel : Channel
new_channel = record { registered_to_poller = false; events = none_event; revents = 0 }

unfoldable pub update_revents : Channel → ℕ → Channel
update_revents c revents = record c { revents = revents }

-- What `RegisterToPoller` does to the channel; the poller keeps the new mask.
unfoldable pub register_to_poller : Channel → Channel
register_to_poller c = record c { registered_to_poller = true }

unfoldable pub enable_reading : Channel → Channel
enable_reading c = register_to_poller (record c { events = bit_or c.events read_event })

unfoldable pub disable_reading : Channel → Channel
disable_reading c =
    register_to_poller (record c { events = bit_and c.events (complement read_event) })

unfoldable pub enable_writing : Channel → Channel
enable_writing c = register_to_poller (record c { events = bit_or c.events write_event })

unfoldable pub disable_writing : Channel → Channel
disable_writing c =
    register_to_poller (record c { events = bit_and c.events (complement write_event) })

unfoldable pub disable_all : Channel → Channel
disable_all c = register_to_poller (record c { events = none_event })

unfoldable pub has_bit : ℕ → ℕ → Bool
has_bit mask bit = not (bit_and mask bit == 0)

unfoldable pub is_reading : Channel → Bool
is_reading c = has_bit c.events read_event

unfoldable pub is_writing : Channel → Bool
is_writing c = has_bit c.events write_event

unfoldable pub is_none_event : Channel → Bool
is_none_event c = has_bit c.events none_event

unfoldable pub remove_from_poller : Channel → Result Channel
remove_from_poller c = do
  assert (c.events == none_event)
  ok (record c { registered_to_poller = false })

-- The four callbacks of a channel over the state that they change; one that is not set does
-- nothing.
pub record Callbacks {ℓ} (S : Type ℓ) : Type ℓ where
  pub read_callback : S → Result S
  pub write_callback : S → Result S
  pub error_callback : S → Result S
  pub close_callback : S → Result S

-- `HandleEvent` for the events that the poller reported.
unfoldable pub handle_event {ℓ} : {S : Type ℓ} → Callbacks S → ℕ → S → Result S
handle_event callbacks revents s = do
  s₁ ←
      (if has_bit revents (epollin + epollpri + epollrdhup)
        then callbacks.read_callback s
        else ok s)
  s₂ ← (if has_bit revents epollout then callbacks.write_callback s₁ else ok s₁)
  s₃ ← (if has_bit revents epollerr then callbacks.error_callback s₂ else ok s₂)
  if has_bit revents epollhup then callbacks.close_callback s₃ else ok s₃
