-- ===== src/Channels.antt =====
-- src/core/types.h: how channels are built. channel_t has 64 bits, doid_t and zone_t have 32.
mod Tests
use astron.Base.{ℕ, ◌+◌, ◌*◌, ◌/◌, ◌%◌, ◌^◌, ◌<◌, ◌≡◌, arith}
use mathlib.Core.Logic.{◌≢◌}

abbrev pub invalid_do_id : ℕ
invalid_do_id = 0

abbrev pub invalid_channel : ℕ
invalid_channel = 0

-- PARENT_PREFIX and DATABASE_PREFIX.
abbrev pub parent_prefix : ℕ
parent_prefix = 2 ^ 32

abbrev pub database_prefix : ℕ
database_prefix = 2 * 2 ^ 32

-- The operands of `|` share no bit, for a doid and a zone of 32 bits: it is a sum.
unfoldable pub location_as_channel : ℕ → ℕ → ℕ
location_as_channel parent zone = parent * 2 ^ 32 + zone

unfoldable pub parent_to_children : ℕ → ℕ
parent_to_children parent = parent_prefix + parent

unfoldable pub database_to_object : ℕ → ℕ
database_to_object object = database_prefix + object

-- Two location channels that are equal have the same parent and the same zone, and a location channel fits
-- 64 bits, where the first parent and both zones fit 32 bits.
pub location_as_channel-injective :
    (parent zone parent' zone' : ℕ)
    → parent < 2 ^ 32
    → zone < 2 ^ 32
    → zone' < 2 ^ 32
    → location_as_channel parent zone ≡ location_as_channel parent' zone'
    → (parent ≡ parent') × (zone ≡ zone') × (location_as_channel parent zone < 2 ^ 64)
unfolding location_as_channel
location_as_channel-injective parent zone parent' zone' hp h h' e = omega arith

-- A channel of an object's children that is a location channel too is one of the parent 1, with the object's
-- id as the zone, where the object's id and the zone fit 32 bits.
pub parent_to_children-location :
    (object parent zone : ℕ)
    → object < 2 ^ 32
    → zone < 2 ^ 32
    → parent_to_children object ≡ location_as_channel parent zone
    → (parent ≡ 1) × (zone ≡ object)
unfolding parent_to_children location_as_channel
parent_to_children-location object parent zone h h' e = omega arith
