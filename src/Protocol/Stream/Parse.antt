-- ===== src/Protocol/Stream/Parse.antt =====
-- `parse_message` on one frame of a stream.
use fernq.Prelude.{
  ℕ, ◌+◌, ◌-◌, ◌^◌, ◌≤◌, ◌<◌, ◌≡◌, refl, ap, Bool, false, ◌++◌, length, append_assoc, length-append,
  le→ltb, ok, arith, ◌==◌,
}
use fernq.Prelude.Bytes.{
  Bytes, to_be_16, to_be_32, length-to_be_16, length-to_be_32, as_u16, as_u32,
}
use fernq.Prelude.Bytes.Cursor.{At, At-step, slice-At, read_16-At, read_32-At}
use fernq.Prelude.Text.{text}
use fernq.Protocol.{Crc}
use fernq.Protocol.Frame.{
  ChannelId, IsChannelId, MessageHeader, MessageFlags, new_flags, try_from_slice,
}
use fernq.Protocol.Encoder.{Stream, frame_tail, data_frame, max_payload, with_crc, fixed_header}
use fernq.Protocol.Frame.RoundTrip.{message_flags-new_flags}
use fernq.Protocol.Decoder.{read_name, parse_message, decode_basic}
use fernq.Protocol.Stream.{IsName, IsStream}
use fernq.Protocol.Stream.OneFrame.{sealed, covered, length-sealed, tail-At, decode_basic-sealed}

read_name-At :
    (bytes : Bytes) (i : ℕ) (name rest name_type : Bytes)
    → IsName name
    → At bytes i (to_be_16 (as_u16 (length name)) ++ (name ++ rest))
    → read_name bytes i 2 name_type ≡ ok (name, i + 2 + length name)
unfolding read_name
read_name-At bytes i name rest name_type n at =
    let small : as_u16 (length name) ≡ length name = omega (arith, n.fits) in
    let at' : At bytes i (to_be_16 (length name) ++ (name ++ rest)) = rw small at at in
    let behind : At bytes (i + 2) (name ++ rest) =
      At-step bytes (to_be_16 (length name)) (name ++ rest) i (i + 2) at'
        (omega (arith, length-to_be_16 (length name))) in
    let full : (length name == 0) ≡ false = ground (arith, n.filled) in
    rw (
      read_16-At bytes i (length name) (name ++ rest) at' (omega (arith, n.fits)),
      read_name,
      le→ltb 128 (length name) n.fits,
      full,
      slice-At bytes name rest (i + 2) (i + 2 + length name) behind refl,
      n.utf8,
    )

try_from_slice-ok : (id : ChannelId) → IsChannelId id → try_from_slice id.bytes ≡ ok id
unfolding try_from_slice
try_from_slice-ok id v = ground (arith, v.sixteen)

-- What `parse_message` is to find in a frame.
abbrev pub frame_header : Stream → ℕ → ℕ → MessageHeader
frame_header s total offset = record {
  channel_id = s.channel_id;
  source = s.source_name;
  target = s.target_name;
  total_len = total;
  stream_offset = offset;
}

module _ (s : Stream) (v : IsStream s) (total offset : ℕ) (payload : Bytes) where
  pub length-frame_tail :
      length (frame_tail s total offset payload)
      ≡ 28 + length s.source_name + length s.target_name + length payload
  length-frame_tail = simp length-append (
      omega (
        arith,
        v.channel.sixteen,
        length-to_be_16 (as_u16 (length s.source_name)),
        length-to_be_16 (as_u16 (length s.target_name)),
        length-to_be_32 (as_u32 total),
        length-to_be_32 (as_u32 offset),
      ))

  -- The frame from each of its parts on, with the checksum `c` behind the payload.
  abbrev from_total : ℕ → Bytes
  from_total c = to_be_32 (as_u32 total) ++ (to_be_32 (as_u32 offset) ++ (payload ++ to_be_16 c))

  abbrev from_target : ℕ → Bytes
  from_target c = to_be_16 (as_u16 (length s.target_name)) ++ (s.target_name ++ from_total c)

  abbrev from_source : ℕ → Bytes
  from_source c = to_be_16 (as_u16 (length s.source_name)) ++ (s.source_name ++ from_target c)

  frame_tail-append :
      (c : ℕ)
      → frame_tail s total offset payload ++ to_be_16 c ≡ s.channel_id.bytes ++ from_source c
  frame_tail-append c = simp append_assoc

  parse_message-At :
      (bytes : Bytes) (c : ℕ)
      → total < 2 ^ 32
      → offset < 2 ^ 32
      → At bytes 11 (s.channel_id.bytes ++ from_source c)
      → length bytes ≡ 41 + length s.source_name + length s.target_name + length payload
      → parse_message bytes ≡ ok (frame_header s total offset, payload)
  unfolding parse_message
  parse_message-At bytes c ht ho at len =
      let a : ℕ = 27 + 2 + length s.source_name in
      let b : ℕ = a + 2 + length s.target_name in
      let source_at : At bytes 27 (from_source c) =
        At-step _ s.channel_id.bytes _ 11 27 at (omega (arith, v.channel.sixteen)) in
      let name_at : At bytes 29 (s.source_name ++ from_target c) =
        At-step _ (to_be_16 (as_u16 (length s.source_name))) _ 27 29 source_at
          (omega (arith, length-to_be_16 (as_u16 (length s.source_name)))) in
      let target_at : At bytes a (from_target c) = At-step _ s.source_name _ 29 a name_at refl in
      let name'_at : At bytes (a + 2) (s.target_name ++ from_total c) =
        At-step _ (to_be_16 (as_u16 (length s.target_name))) _ a (a + 2) target_at
          (omega (arith, length-to_be_16 (as_u16 (length s.target_name)))) in
      let total_at : At bytes b (from_total c) =
        At-step _ s.target_name _ (a + 2) b name'_at refl in
      let total_small : as_u32 total ≡ total = omega (arith, ht) in
      let offset_small : as_u32 offset ≡ offset = omega (arith, ho) in
      let total_at' : At bytes b
          (to_be_32 total ++ (to_be_32 (as_u32 offset) ++ (payload ++ to_be_16 c))) =
        rw total_small at total_at in
      let offset_at : At bytes (b + 4) (to_be_32 offset ++ (payload ++ to_be_16 c)) =
        rw offset_small at (
          At-step _ (to_be_32 total) _ b (b + 4) total_at'
            (omega (arith, length-to_be_32 total))) in
      let payload_at : At bytes (b + 4 + 4) (payload ++ to_be_16 c) =
        At-step _ (to_be_32 offset) _ (b + 4) (b + 4 + 4) offset_at
          (omega (arith, length-to_be_32 offset)) in
      rw (
        le→ltb (length bytes) 41 (omega (arith, len)),
        slice-At bytes s.channel_id.bytes (from_source c) 11 27 at
            (omega (arith, v.channel.sixteen)),
        try_from_slice-ok s.channel_id v.channel,
        read_name-At bytes 27 s.source_name (from_target c) (text "source") v.source source_at,
        read_name-At bytes a s.target_name (from_total c) (text "target") v.target target_at,
        read_32-At bytes b total _ total_at' ht,
        read_32-At bytes (b + 4) offset _ offset_at ho,
        slice-At bytes payload (to_be_16 c) (b + 4 + 4) (length bytes - 2) payload_at
            (omega (arith, len)),
      )

module _ (crc : Crc) (s : Stream) (end : Bool) (total offset : ℕ) (payload : Bytes) where
  -- The flags of such a frame.
  abbrev pub frame_flags : MessageFlags
  frame_flags = new_flags end s.end_channel s.is_response

  module _ (v : IsStream s) (fits : length payload ≤ max_payload s) where
    data_frame-sealed :
        data_frame crc s end total offset payload
        ≡ sealed crc s.message_type frame_flags (frame_tail s total offset payload)
    unfolding data_frame
    data_frame-sealed =
        let len : ℕ =
          as_u32 (41 + length s.source_name + length s.target_name + length payload - 11) in
        let e : len ≡ length (frame_tail s total offset payload) + 2 =
          omega (arith, length-frame_tail s v total offset payload, v.source.fits, v.target.fits) in
        ap
          (λ n.
            with_crc crc
              (fixed_header s.message_type frame_flags n ++ frame_tail s total offset payload))
          e

    pub length-data_frame :
        length (data_frame crc s end total offset payload)
        ≡ 41 + length s.source_name + length s.target_name + length payload
    length-data_frame = rw data_frame-sealed (
        omega (
          arith,
          length-sealed crc s.message_type frame_flags (frame_tail s total offset payload),
          length-frame_tail s v total offset payload,
        ))

    pub decode_basic-data_frame :
        (rest : Bytes)
        → decode_basic crc (data_frame crc s end total offset payload ++ rest)
          ≡ ok (s.message_type, frame_flags, data_frame crc s end total offset payload, rest)
    decode_basic-data_frame rest = rw data_frame-sealed (
        decode_basic-sealed crc s.message_type frame_flags (frame_tail s total offset payload) rest
          (message_flags-new_flags end s.end_channel s.is_response).0
          (omega (arith, length-frame_tail s v total offset payload, v.source.fits, v.target.fits)))

    pub parse_message-data_frame :
        total < 2 ^ 32
        → offset < 2 ^ 32
        → parse_message (data_frame crc s end total offset payload)
          ≡ ok (frame_header s total offset, payload)
    parse_message-data_frame ht ho = rw data_frame-sealed (
        parse_message-At s v total offset payload _
          (crc.checksum
            (covered crc s.message_type frame_flags (frame_tail s total offset payload)))
          ht ho
          (rw (frame_tail-append s v total offset payload _) at
            (tail-At crc s.message_type frame_flags (frame_tail s total offset payload)))
          (omega (
            arith,
            length-sealed crc s.message_type frame_flags (frame_tail s total offset payload),
            length-frame_tail s v total offset payload,
          )))
