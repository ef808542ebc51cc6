-- ===== src/Reactor/Channel/Tests.antt =====
-- A channel that reads and writes.
use wethands.Prelude.{◌≡◌, refl, true, false, arith}
use wethands.Reactor.Channel.{
  Channel, enable_reading, disable_reading, enable_writing, disable_writing, register_to_poller,
  is_reading, is_writing, has_bit, new_channel,
}
use wethands.Reactor.Channel.Mask.{InRange, flags_independent}

abbrev both : Channel
both = record { registered_to_poller = true; events = 5; revents = 0 }

enable_from_new : enable_writing (enable_reading new_channel) ≡ both
unfolding enable_writing enable_reading register_to_poller new_channel
enable_from_new = refl

flags_independent_example :
    (InRange (enable_reading both)
      × (is_reading (enable_reading both) ≡ true)
      × (is_writing (enable_reading both) ≡ true))
    × (InRange (enable_writing both)
        × (is_writing (enable_writing both) ≡ true)
        × (is_reading (enable_writing both) ≡ true))
    × (InRange (disable_reading both)
        × (is_reading (disable_reading both) ≡ false)
        × (is_writing (disable_reading both) ≡ true))
    × (InRange (disable_writing both)
        × (is_writing (disable_writing both) ≡ false)
        × (is_reading (disable_writing both) ≡ true))
unfolding is_reading is_writing has_bit
flags_independent_example = flags_independent both (omega arith)
