-- ===== src/Reactor/Channel/Mask.antt =====
-- The event mask behaves as two independent flags.
use Prim.Native.Nat.{bit_and, bit_or}
use wethands.Prelude.{ℕ, zero, suc, ◌<◌, ◌≡◌, refl, Bool, true, false, not, ◌&&◌, arith, ltb}
use wethands.Reactor.Channel.{
  Channel, new_channel, register_to_poller, enable_reading, disable_reading, enable_writing,
  disable_writing, disable_all, has_bit, is_reading, is_writing, is_none_event, read_event,
  write_event, complement, none_event,
}

-- The masks that a channel can have lie below this number.
abbrev pub mask_limit : ℕ
mask_limit = 8

-- Does a test hold of the first numbers?
first_hold : ℕ → (ℕ → Bool) → Bool
first_hold zero test = true
first_hold (suc bound) test = test 0 && first_hold bound (λ k. test (suc k))

first_hold-holds :
    (bound : ℕ) (test : ℕ → Bool) (mask : ℕ)
    → mask < bound
    → first_hold bound test ≡ true
    → test mask ≡ true
unfolding first_hold
first_hold-holds zero test mask below all = absurd (omega arith)
first_hold-holds (suc bound) test zero below all = ground arith
first_hold-holds (suc bound) test (suc mask) below all =
    first_hold-holds bound (λ k. test (suc k)) mask (omega arith) (ground arith)

agrees : Bool → Bool → Bool
agrees true b = b
agrees false b = not b

agrees-eq : (a b : Bool) → agrees a b ≡ true → a ≡ b
unfolding agrees
agrees-eq true b h = ground arith
agrees-eq false b h = ground arith

-- Setting and clearing one bit of a mask, seen through both bits.
row : ℕ → Bool
row x =
    has_bit (bit_or x read_event) read_event
    && agrees (has_bit (bit_or x read_event) write_event) (has_bit x write_event)
    && has_bit (bit_or x write_event) write_event
    && agrees (has_bit (bit_or x write_event) read_event) (has_bit x read_event)
    && not (has_bit (bit_and x (complement read_event)) read_event)
    && agrees (has_bit (bit_and x (complement read_event)) write_event) (has_bit x write_event)
    && not (has_bit (bit_and x (complement write_event)) write_event)
    && agrees (has_bit (bit_and x (complement write_event)) read_event) (has_bit x read_event)
    && ltb (bit_or x read_event) mask_limit
    && ltb (bit_or x write_event) mask_limit
    && ltb (bit_and x (complement read_event)) mask_limit
    && ltb (bit_and x (complement write_event)) mask_limit

table : first_hold mask_limit row ≡ true
unfolding first_hold row has_bit agrees
table = refl

abbrev pub InRange : Channel → Type 0
InRange c = c.events < mask_limit

module _ (c : Channel) (v : InRange c) where
  row_holds : row c.events ≡ true
  row_holds = first_hold-holds mask_limit row c.events v table

  -- Turning one interest on or off leaves the other as it was.
  pub enable_reading_lem :
      InRange (enable_reading c)
      × (is_reading (enable_reading c) ≡ true)
      × (is_writing (enable_reading c) ≡ is_writing c)
  unfolding enable_reading register_to_poller is_reading is_writing row
  enable_reading_lem = ground (
    arith,
    row_holds,
    agrees-eq (has_bit (bit_or c.events read_event) write_event) (has_bit c.events write_event),
  )

  pub enable_writing_lem :
      InRange (enable_writing c)
      × (is_writing (enable_writing c) ≡ true)
      × (is_reading (enable_writing c) ≡ is_reading c)
  unfolding enable_writing register_to_poller is_reading is_writing row
  enable_writing_lem = ground (
    arith,
    row_holds,
    agrees-eq (has_bit (bit_or c.events write_event) read_event) (has_bit c.events read_event),
  )

  pub disable_reading_lem :
      InRange (disable_reading c)
      × (is_reading (disable_reading c) ≡ false)
      × (is_writing (disable_reading c) ≡ is_writing c)
  unfolding disable_reading register_to_poller is_reading is_writing row
  disable_reading_lem = ground (
    arith,
    row_holds,
    agrees-eq (has_bit (bit_and c.events (complement read_event)) write_event)
        (has_bit c.events write_event),
  )

  pub disable_writing_lem :
      InRange (disable_writing c)
      × (is_writing (disable_writing c) ≡ false)
      × (is_reading (disable_writing c) ≡ is_reading c)
  unfolding disable_writing register_to_poller is_reading is_writing row
  disable_writing_lem = ground (
    arith,
    row_holds,
    agrees-eq (has_bit (bit_and c.events (complement write_event)) read_event)
        (has_bit c.events read_event),
  )

pub disable_all_lem :
    (c : Channel)
    → InRange (disable_all c)
      × (is_writing (disable_all c) ≡ false)
      × (is_reading (disable_all c) ≡ false)
unfolding disable_all register_to_poller is_reading is_writing has_bit
disable_all_lem c = (omega arith, refl, refl)

pub new_channel_lem :
    InRange new_channel × (is_writing new_channel ≡ false) × (is_reading new_channel ≡ false)
unfolding new_channel is_reading is_writing has_bit
new_channel_lem = (omega arith, refl, refl)

-- The two interests are flags of their own: each of the four operations on a mask in range stays
-- in range, sets or clears its own flag, and leaves the other as it was.
pub flags_independent :
    (c : Channel)
    → InRange c
    → (InRange (enable_reading c)
        × (is_reading (enable_reading c) ≡ true)
        × (is_writing (enable_reading c) ≡ is_writing c))
      × (InRange (enable_writing c)
          × (is_writing (enable_writing c) ≡ true)
          × (is_reading (enable_writing c) ≡ is_reading c))
      × (InRange (disable_reading c)
          × (is_reading (disable_reading c) ≡ false)
          × (is_writing (disable_reading c) ≡ is_writing c))
      × (InRange (disable_writing c)
          × (is_writing (disable_writing c) ≡ false)
          × (is_reading (disable_writing c) ≡ is_reading c))
flags_independent c v = (
  enable_reading_lem c v,
  enable_writing_lem c v,
  disable_reading_lem c v,
  disable_writing_lem c v,
)

no_bit_table : first_hold mask_limit (λ x. not (has_bit x none_event)) ≡ true
unfolding first_hold has_bit
no_bit_table = refl

-- `IsNoneEvent` is false of every mask, the empty one included: the test is `events_ & 0`.
pub is_none_event-false : (c : Channel) → InRange c → is_none_event c ≡ false
unfolding is_none_event
is_none_event-false c v =
    ground
      (arith, first_hold-holds mask_limit (λ x. not (has_bit x none_event)) c.events v no_bit_table)
