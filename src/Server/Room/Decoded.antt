-- ===== src/Server/Room/Decoded.antt =====
-- The frames of a stream, as a listener reads them.
use fernq.Prelude.{
  ℕ, ◌+◌, ◌-◌, ◌≤◌, ◌≡◌, refl, sym, ap, ◌∙◌, subst, Bool, List, [], ◌∷◌, append-nil, map, length,
  take, is_nil, is_nil-map, ok, arith, ok-injective,
}
use fernq.Prelude.Bytes.{Bytes}
use fernq.Protocol.{Crc, max_stream_length, max_frame_size}
use fernq.Protocol.Frame.{MessageFlags, MessageHeader, new_flags}
use fernq.Protocol.Encoder.{Stream, max_payload, generate_message_data_stream}
use fernq.Protocol.Decoder.{decode_header, decode_basic, parse_message}
use fernq.Protocol.Decoder.Header.{decode_header-decode_basic}
use fernq.Protocol.Stream.{IsStream}
use fernq.Protocol.Stream.Parse.{
  frame_header, length-data_frame, decode_basic-data_frame, parse_message-data_frame,
}
use fernq.Protocol.Stream.Pieces.{
  Piece, pieces, piece_frame, IsCut, generate_message_data_stream-pieces,
}
use fernq.Protocol.Stream.Receive.{cut_le}

-- What is read of one frame of the stream, the last one or not.
pub record IsDecoded (s : Stream) (last : Bool) (frame : Bytes) : Type 0 where
  pub info : MessageHeader
  pub payload : Bytes
  pub decoded :
      decode_header (take 11 frame)
      ≡ ok (s.message_type, new_flags last s.end_channel s.is_response, length frame - 11)
  pub parsed : parse_message frame ≡ ok (info, payload)
  pub channel : info.channel_id ≡ s.channel_id
  pub source : info.source ≡ s.source_name
  pub target : info.target ≡ s.target_name
  pub fits : length frame ≤ max_frame_size

abbrev pub AreDecoded : Stream → List Bytes → Type 0
AreDecoded s [] = Unit
AreDecoded s (frame ∷ frames) = IsDecoded s (is_nil frames) frame × AreDecoded s frames

module _ (crc : Crc) (s : Stream) (v : IsStream s) (total : ℕ)
    (small : total ≤ max_stream_length) where
  piece_frame-IsDecoded :
      (p : Piece)
      → p.offset ≤ total
      → length p.payload ≤ max_payload s
      → IsDecoded s p.last (piece_frame crc s total p)
  piece_frame-IsDecoded p before fits =
      let frame : Bytes = piece_frame crc s total p in
      let flags : MessageFlags = new_flags p.last s.end_channel s.is_response in
      let accepted : decode_basic crc frame ≡ ok (s.message_type, flags, frame, []) =
        ap (decode_basic crc) (sym (append-nil frame))
        ∙ decode_basic-data_frame crc s p.last total p.offset p.payload v fits [] in
      record {
        info = frame_header s total p.offset;
        payload = p.payload;
        decoded = decode_header-decode_basic crc frame s.message_type flags frame [] accepted;
        parsed =
            parse_message-data_frame crc s p.last total p.offset p.payload v fits
              (omega (arith, small)) (omega (arith, small, before));
        channel = refl;
        source = refl;
        target = refl;
        fits = omega (
          arith,
          length-data_frame crc s p.last total p.offset p.payload v fits,
          v.source.fits,
          v.target.fits,
        );
      }

  pieces-IsDecoded :
      (offset : ℕ) (ps : List Piece)
      → IsCut (max_payload s) total offset ps
      → AreDecoded s (map (piece_frame crc s total) ps)
  pieces-IsDecoded offset [] cut = tt
  pieces-IsDecoded offset (p ∷ ps) (at, some_bytes, fits, last, full, cut) = (
    subst (λ b. IsDecoded s b (piece_frame crc s total p))
        (last ∙ sym (is_nil-map (piece_frame crc s total) ps))
        (piece_frame-IsDecoded p (omega (arith, at, cut_le (max_payload s) total _ ps cut)) fits),
    pieces-IsDecoded (offset + length p.payload) ps cut,
  )

pub generate_message_data_stream-IsDecoded :
    (crc : Crc) (s : Stream) (bytes : Bytes) (frames : List Bytes)
    → IsStream s
    → length bytes ≤ max_stream_length
    → generate_message_data_stream crc s bytes ≡ ok frames
    → AreDecoded s frames
generate_message_data_stream-IsDecoded crc s bytes frames v small h =
    let (made, cut, whole) = generate_message_data_stream-pieces crc s bytes v small in
    subst (AreDecoded s) (ok-injective made h)
      (pieces-IsDecoded crc s v (length bytes) small 0 (pieces (max_payload s) bytes) cut)
