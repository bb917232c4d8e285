-- ===== src/Channels/Tests.antt =====
-- src/core/types.h: concrete channels.
use astron.Base.{◌+◌, ◌*◌, ◌^◌, ◌≡◌, refl}
use astron.Channels.{location_as_channel, parent_to_children}

location : location_as_channel 1234 5678 ≡ 1234 * 2 ^ 32 + 5678
unfolding location_as_channel
location = refl

children_of_five : parent_to_children 5 ≡ location_as_channel 1 5
unfolding parent_to_children location_as_channel
children_of_five = refl
