-- ===== src/Datagram/Header.antt =====
-- src/util/Datagram.h: the headers of server and control messages.
use astron.Base.{ℕ, ◌*◌, ◌≡◌, refl, List, [], ◌∷◌, ◌++◌, length, arith, length-append}
use astron.Base.Result.{Result, ok, ◌>>=◌, >>=-assoc}
use astron.Bytes.{le_bytes, length-le_bytes}
use astron.Datagram.{Datagram, add_uint8, add_uint16, add_channel, empty}
use astron.Datagram.Memory.{IsValid}
use astron.Datagram.Appending.{Appends, Appends-bind, Appends-nil}
use astron.Datagram.Values.{add_uint8-Appends, add_uint16-Appends, add_channel-Appends}

-- src/core/types.h: CONTROL_MESSAGE.
abbrev pub control_message : ℕ
control_message = 1

-- The loop over the receivers. A set of channels is the list of its elements in the order of its
-- iterator.
unfoldable pub add_channels : Datagram → List ℕ → Result Datagram
add_channels dg [] = ok dg
add_channels dg (c ∷ cs) = add_channel dg c >>= λ d. add_channels d cs

unfoldable pub add_server_header : Datagram → List ℕ → ℕ → ℕ → Result Datagram
add_server_header dg to from message_type = do
  dg ← add_uint8 dg (length to)
  dg ← add_channels dg to
  dg ← add_channel dg from
  add_uint16 dg message_type

-- The overload for one receiver.
unfoldable pub add_server_header_single : Datagram → ℕ → ℕ → ℕ → Result Datagram
add_server_header_single dg to from message_type = do
  dg ← add_uint8 dg 1
  dg ← add_channel dg to
  dg ← add_channel dg from
  add_uint16 dg message_type

unfoldable pub add_control_header : Datagram → ℕ → Result Datagram
add_control_header dg message_type = do
  dg ← add_uint8 dg 1
  dg ← add_channel dg control_message
  add_uint16 dg message_type

-- Datagram::create(to_channels, from_channel, message_type), and its overloads.
unfoldable pub create_set : List ℕ → ℕ → ℕ → Result Datagram
create_set to from message_type = add_server_header empty to from message_type

unfoldable pub create : ℕ → ℕ → ℕ → Result Datagram
create to from message_type = add_server_header_single empty to from message_type

unfoldable pub create_control : ℕ → Result Datagram
create_control message_type = add_control_header empty message_type

-- The layout: (uint8_t count, channel_t[] receivers, channel_t sender, uint16_t message_type).
unfoldable pub channel_bytes : List ℕ → List ℕ
channel_bytes [] = []
channel_bytes (c ∷ cs) = le_bytes 8 c ++ channel_bytes cs

unfoldable pub header_bytes : List ℕ → ℕ → ℕ → List ℕ
header_bytes to from message_type =
    le_bytes 1 (length to) ++ (channel_bytes to ++ (le_bytes 8 from ++ le_bytes 2 message_type))

pub empty-IsValid : IsValid empty
unfolding empty
empty-IsValid = record { allocated = refl; within_cap = omega arith; within_max = omega arith }

pub add_channels-Appends :
    (dg : Datagram) (cs : List ℕ) → IsValid dg → Appends dg (channel_bytes cs) (add_channels dg cs)
unfolding add_channels channel_bytes
add_channels-Appends dg [] v = Appends-nil dg v
add_channels-Appends dg (c ∷ cs) v =
    Appends-bind dg _ _ _ _ (add_channel-Appends dg v c) (λ d w. add_channels-Appends d cs w)

-- To a valid datagram, a server header for any set of receivers appends the number of receivers in one byte,
-- the receivers, the sender and the type; or it throws DatagramOverflow, exactly if these would pass
-- DGSIZE_MAX. The number is taken modulo 256.
pub add_server_header-Appends :
    (dg : Datagram) (to : List ℕ) (from message_type : ℕ)
    → IsValid dg
    → Appends dg (header_bytes to from message_type) (add_server_header dg to from message_type)
unfolding add_server_header header_bytes
add_server_header-Appends dg to from message_type v =
    Appends-bind dg _ _ _ _ (add_uint8-Appends dg v (length to)) λ d₁ v₁.
      Appends-bind d₁ _ _ _ _ (add_channels-Appends d₁ to v₁) λ d₂ v₂.
        Appends-bind d₂ _ _ _ _ (add_channel-Appends d₂ v₂ from)
          λ d₃ v₃. add_uint16-Appends d₃ v₃ message_type

-- The overload for one receiver writes the same header as the other one does for a set of one.
pub add_server_header_single-eq :
    (dg : Datagram) (to from message_type : ℕ)
    → add_server_header_single dg to from message_type
      ≡ add_server_header dg (to ∷ []) from message_type
unfolding add_server_header add_server_header_single add_channels
add_server_header_single-eq dg to from message_type = simp >>=-assoc

pub length-channel_bytes : (cs : List ℕ) → length (channel_bytes cs) ≡ length cs * 8
unfolding channel_bytes
length-channel_bytes [] = refl
length-channel_bytes (c ∷ cs) = omega (
  arith,
  length-append (le_bytes 8 c) (channel_bytes cs),
  length-le_bytes 8 c,
  length-channel_bytes cs,
)
