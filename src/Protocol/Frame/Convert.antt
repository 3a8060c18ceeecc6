-- ===== src/Protocol/Frame/Convert.antt =====
-- Making and taking apart a `ChannelId`, fernq-core/src/protocol/frame.rs. A `Uuid` is its sixteen bytes.
use fernq.Prelude.{◌≡◌, refl, ok}
use fernq.Prelude.Bytes.{Bytes}
use fernq.Protocol.Error.{ProtocolResult}
use fernq.Protocol.Frame.{ChannelId, IsChannelId, try_from_slice}

abbrev pub from_uuid : (uuid : Bytes) → ChannelId
from_uuid uuid = record { bytes = uuid }

-- `ChannelId::new` and `default`, with the random UUID.
abbrev pub new_channel : (new_v4 : Bytes) → ChannelId
new_channel new_v4 = from_uuid new_v4

abbrev pub as_uuid : ChannelId → Bytes
as_uuid id = id.bytes

abbrev pub as_bytes : ChannelId → Bytes
as_bytes id = id.bytes

abbrev pub into_bytes : ChannelId → Bytes
into_bytes id = id.bytes

abbrev pub channel_from_bytes : Bytes → ChannelId
channel_from_bytes bytes = record { bytes = bytes }

-- `TryFrom<[u8; 16]>`, which never fails, and `TryFrom<&[u8]>`.
abbrev pub try_from_array : Bytes → ProtocolResult ChannelId
try_from_array bytes = ok (channel_from_bytes bytes)

abbrev pub try_from : Bytes → ProtocolResult ChannelId
try_from slice = try_from_slice slice

-- On the bytes of a channel id, both conversions give it back.
try_from-into_bytes :
    (id : ChannelId)
    → IsChannelId id
    → (try_from (into_bytes id) ≡ ok id) × (try_from_array (into_bytes id) ≡ ok id)
unfolding try_from_slice
try_from-into_bytes id valid = (rw valid.sixteen refl, refl)
