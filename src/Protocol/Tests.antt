-- ===== src/Protocol/Tests.antt =====
-- Runs of the protocol on concrete frames, with CRC-16/XMODEM for the checksum, and the theorems at
-- concrete inputs.
use Prim.Native.Nat.{bit_xor}
use fernq.Prelude.{
  ℕ, zero, suc, ◌*◌, ◌%◌, ◌^◌, ◌≤◌, ◌<◌, ◌≡◌, refl, ◌⊎◌, true, false, List, [], ◌∷◌, ◌++◌, map,
  length, take, drop, All, ltb, if◌then◌else◌, ok, err, Returns, arith,
}
use fernq.Prelude.Bytes.{Bytes, index, slice, read_16, read_32, to_be_16, to_be_32}
use fernq.Prelude.Text.{is_utf8}
use fernq.Protocol.{Crc, max_frame_size}
use fernq.Protocol.Error.{ProtocolError, incomplete_frame}
use fernq.Protocol.Frame.{
  body, ping, type_byte, message_type, new_flags, message_flags, MessageHeader, ChannelId,
  IsChannelId, is_power_of_two, power_among, validate_magic, validate_version, try_from_slice,
}
use fernq.Protocol.Encoder.{Stream, ping_frame, generate_message_data_stream, max_payload}
use fernq.Protocol.Decoder.{decode_basic, check_crc, checked_add, checked_sub, parse_message}
use fernq.Protocol.Stream.{IsStream}
use fernq.Protocol.Decoder.{read_name}
use fernq.Protocol.Decoder.Safe.{decode_basic-Returns}
use fernq.Protocol.Decoder.Split.{IsFrame, decode_basic_sound}
use fernq.Protocol.Decoder.Arrival.{decode_basic_incomplete}
use fernq.Protocol.Stream.Pieces.{
  pieces, piece_frame, IsCut, joined, generate_message_data_stream-pieces,
}
use fernq.Protocol.Stream.Errors.{Fits, generate_message_data_stream_cases}
use fernq.Protocol.Stream.Receive.{
  Received, receive, on_the_wire, payloads, IsFrom, receive-generate_message_data_stream,
}

crc_round : ℕ → ℕ
crc_round c = if ltb c 32768 then c * 2 else bit_xor (c * 2 % 65536) 0x1021

crc_rounds : ℕ → ℕ → ℕ
unfolding crc_round
crc_rounds zero c = c
crc_rounds (suc n) c = crc_rounds n (crc_round c)

crc_from : ℕ → Bytes → ℕ
unfolding crc_rounds
crc_from c [] = c
crc_from c (b ∷ bs) = crc_from (crc_rounds 8 (bit_xor c (b * 256))) bs

abbrev pub xmodem : Bytes → ℕ
unfolding crc_from
xmodem bytes = crc_from 0 bytes % 2 ^ 16

pub xmodem_u16 : (bytes : Bytes) → xmodem bytes < 2 ^ 16
unfolding xmodem
xmodem_u16 bytes = omega arith

abbrev pub net_crc : Crc
net_crc = record { checksum = xmodem; checksum_u16 = xmodem_u16 }

-- The check value of CRC-16/XMODEM.
xmodem_check : xmodem (0x31 ∷ 0x32 ∷ 0x33 ∷ 0x34 ∷ 0x35 ∷ 0x36 ∷ 0x37 ∷ 0x38 ∷ 0x39 ∷ []) ≡ 0x31c3
unfolding xmodem crc_from
xmodem_check = refl

abbrev pub sample_id : ChannelId
sample_id = record {
  bytes = 0 ∷ 1 ∷ 2 ∷ 3 ∷ 4 ∷ 5 ∷ 6 ∷ 7 ∷ 8 ∷ 9 ∷ 10 ∷ 11 ∷ 12 ∷ 13 ∷ 14 ∷ 15 ∷ [];
}

abbrev pub sample : Stream
sample = record {
  message_type = body;
  end_channel = false;
  is_response = true;
  channel_id = sample_id;
  source_name = 0x61 ∷ 0x62 ∷ [];
  target_name = 0xc3 ∷ 0xa9 ∷ [];
}

pub sample-IsStream : IsStream sample
unfolding is_utf8
sample-IsStream = record {
  source = record { filled = omega arith; fits = omega arith; utf8 = refl };
  target = record { filled = omega arith; fits = omega arith; utf8 = refl };
  channel = record { sixteen = refl; are_bytes = omega arith };
}

ping_decodes :
    decode_basic net_crc (ping_frame net_crc)
    ≡ ok (ping, new_flags true true false, ping_frame net_crc, [])
unfolding decode_basic ping_frame to_be_32 to_be_16 xmodem crc_from slice index read_32 read_16
    validate_magic validate_version type_byte message_type message_flags new_flags check_crc
    checked_add checked_sub
ping_decodes = refl

receive-generate_message_data_stream_example :
    (frames : List Bytes) × (rs : List Received) × (generate_message_data_stream net_crc sample
        (7 ∷ 8 ∷ [])
      ≡ ok frames)
    × (receive net_crc (suc (length frames)) (on_the_wire frames) ≡ ok rs)
    × (length rs ≡ length frames)
    × (payloads rs ≡ 7 ∷ 8 ∷ [])
    × IsFrom sample 2 rs
    × All (λ f. length f ≤ max_frame_size) frames
receive-generate_message_data_stream_example =
    receive-generate_message_data_stream net_crc sample (7 ∷ 8 ∷ []) sample-IsStream (omega arith)

generate_message_data_stream-pieces_example :
    (generate_message_data_stream net_crc sample (7 ∷ 8 ∷ [])
      ≡ ok (map (piece_frame net_crc sample 2) (pieces (max_payload sample) (7 ∷ 8 ∷ []))))
    × IsCut (max_payload sample) 2 0 (pieces (max_payload sample) (7 ∷ 8 ∷ []))
    × (joined (pieces (max_payload sample) (7 ∷ 8 ∷ [])) ≡ 7 ∷ 8 ∷ [])
generate_message_data_stream-pieces_example =
    generate_message_data_stream-pieces net_crc sample (7 ∷ 8 ∷ []) sample-IsStream (omega arith)

generate_message_data_stream_cases_example :
    (Fits sample (7 ∷ [])
      × (frames : List Bytes) × (generate_message_data_stream net_crc sample (7 ∷ []) ≡ ok frames))
    ⊎ (¬ Fits sample (7 ∷ [])
        × (e : ProtocolError) × (generate_message_data_stream net_crc sample (7 ∷ []) ≡ err e))
generate_message_data_stream_cases_example =
    generate_message_data_stream_cases net_crc sample (7 ∷ [])

-- The ping frame, byte by byte; the first four are the magic number.
abbrev ping_bytes : Bytes
ping_bytes = 1 ∷ 53 ∷ 45 ∷ 207 ∷ 1 ∷ 3 ∷ 192 ∷ 0 ∷ 0 ∷ 0 ∷ 2 ∷ 101 ∷ 123 ∷ []

ping_bytes_decode :
    decode_basic net_crc ping_bytes ≡ ok (ping, new_flags true true false, ping_bytes, [])
unfolding decode_basic to_be_32 to_be_16 xmodem crc_from slice index read_32 read_16 validate_magic
    validate_version type_byte message_type message_flags new_flags check_crc checked_add
    checked_sub
ping_bytes_decode = refl

decode_basic_sound_example :
    (ping_bytes ++ [] ≡ ping_bytes) × IsFrame net_crc ping_bytes ping (new_flags true true false)
decode_basic_sound_example =
    decode_basic_sound net_crc ping_bytes ping (new_flags true true false) ping_bytes []
      ping_bytes_decode

decode_basic_incomplete_example :
    (required : ℕ) × (context : Bytes) × (decode_basic net_crc (take 12 ping_bytes)
      ≡ err (incomplete_frame required 12 context))
    × (12 < required)
    × (required ≤ 13)
decode_basic_incomplete_example =
    decode_basic_incomplete net_crc (take 12 ping_bytes) (drop 12 ping_bytes) ping
      (new_flags true true false) ping_bytes [] ping_bytes_decode (omega arith)

decode_basic-Returns_example : Returns (decode_basic net_crc (1 ∷ 53 ∷ 255 ∷ []))
decode_basic-Returns_example = decode_basic-Returns net_crc (1 ∷ 53 ∷ 255 ∷ []) (omega arith)

-- A frame of 41 bytes that claims a source name of 100 bytes.
abbrev pub long_name : Bytes
long_name =
    1 ∷ 53 ∷ 45 ∷ 207 ∷ 1 ∷ 2 ∷ 192 ∷ 0 ∷ 0 ∷ 0 ∷ 30 ∷ 0 ∷ 1 ∷ 2 ∷ 3 ∷ 4 ∷ 5 ∷ 6 ∷ 7 ∷ 8 ∷ 9 ∷ 10
    ∷ 11 ∷ 12 ∷ 13 ∷ 14 ∷ 15 ∷ 0 ∷ 100 ∷ 0 ∷ 0 ∷ 0 ∷ 0 ∷ 0 ∷ 0 ∷ 0 ∷ 0 ∷ 0 ∷ 0 ∷ 0 ∷ 0 ∷ []

pub long_name_length : read_16 {E = ProtocolError} long_name 27 ≡ ok 100
unfolding read_16 index
long_name_length = refl

-- A message frame from "a" to "b" with an empty payload.
abbrev small_frame : Bytes
small_frame =
    1 ∷ 53 ∷ 45 ∷ 207 ∷ 1 ∷ 2 ∷ 192 ∷ 0 ∷ 0 ∷ 0 ∷ 32 ∷ 0 ∷ 1 ∷ 2 ∷ 3 ∷ 4 ∷ 5 ∷ 6 ∷ 7 ∷ 8 ∷ 9 ∷ 10
    ∷ 11 ∷ 12 ∷ 13 ∷ 14 ∷ 15 ∷ 0 ∷ 1 ∷ 97 ∷ 0 ∷ 1 ∷ 98 ∷ 0 ∷ 0 ∷ 0 ∷ 9 ∷ 0 ∷ 0 ∷ 0 ∷ 4 ∷ 0 ∷ 0 ∷ []

abbrev small_header : MessageHeader
small_header = record {
  channel_id = sample_id;
  source = 97 ∷ [];
  target = 98 ∷ [];
  total_len = 9;
  stream_offset = 4;
}

small_frame_parse : parse_message small_frame ≡ ok (small_header, [])
unfolding parse_message slice index read_16 read_32 read_name try_from_slice is_utf8
small_frame_parse = refl

pub sample_id-IsChannelId : IsChannelId sample_id
sample_id-IsChannelId = sample-IsStream.channel

pub thirty_two : is_power_of_two 32 ≡ true
unfolding is_power_of_two power_among
thirty_two = refl
