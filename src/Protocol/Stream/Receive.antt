-- ===== src/Protocol/Stream/Receive.antt =====
-- A peer that reads a byte stream with `decode_basic` and `parse_message`, and gets back what
-- `generate_message_data_stream` was given. The reading loop is no code of the repository: it calls
-- the two decoders as their documentation describes, on fuel for the number of frames.
use fernq.Prelude.{
  is_nil, ℕ, zero, suc, ◌+◌, ◌≤◌, ◌≡◌, refl, sym, ap, ◌∙◌, Bool, true, false, List, [], ◌∷◌, ◌++◌,
  map, length, length-map, All, ok, stuck, ◌>>=◌, arith,
}
use fernq.Prelude.Bytes.{Bytes}
use fernq.Protocol.{Crc, max_stream_length, max_frame_size}
use fernq.Protocol.Error.{ProtocolResult}
use fernq.Protocol.Frame.{MessageType, MessageFlags, MessageHeader, flag_triple, new_flags}
use fernq.Protocol.Frame.RoundTrip.{message_flags-new_flags}
use fernq.Protocol.Encoder.{Stream, max_payload, generate_message_data_stream}
use fernq.Protocol.Decoder.{decode_basic, parse_message}
use fernq.Protocol.Stream.{IsStream}
use fernq.Protocol.Stream.Parse.{
  frame_header, length-data_frame, decode_basic-data_frame, parse_message-data_frame,
}
use fernq.Protocol.Stream.Pieces.{
  Piece, pieces, piece_frame, IsCut, joined, generate_message_data_stream-pieces,
}

pub record Received : Type 0 where
  pub message_type : MessageType
  pub flags : MessageFlags
  pub header : MessageHeader
  pub payload : Bytes

-- Reads frames until no byte is left.
unfoldable pub receive : Crc → ℕ → Bytes → ProtocolResult (List Received)
receive crc zero bytes = stuck
receive crc (suc fuel) [] = ok []
receive crc (suc fuel) (b ∷ bs) = decode_basic crc (b ∷ bs) >>= λ (t, f, frame, rest).
    parse_message frame >>= λ (h, p). receive crc fuel rest >>= λ later.
    ok (record { message_type = t; flags = f; header = h; payload = p } ∷ later)

-- The bytes of several frames, one behind the other.
abbrev pub on_the_wire : List Bytes → Bytes
on_the_wire [] = []
on_the_wire (f ∷ fs) = f ++ on_the_wire fs

abbrev pub payloads : List Received → Bytes
payloads [] = []
payloads (r ∷ rs) = r.payload ++ payloads rs

-- What is received for a piece of a stream of `total` bytes.
abbrev pub received : Stream → ℕ → Piece → Received
received s total p = record {
  message_type = s.message_type;
  flags = new_flags p.last s.end_channel s.is_response;
  header = frame_header s total p.offset;
  payload = p.payload;
}

receive_step :
    (crc : Crc) (fuel : ℕ) (frame rest : Bytes) (t : MessageType) (f : MessageFlags)
    (h : MessageHeader) (p : Bytes) (later : List Received)
    → 1 ≤ length frame
    → decode_basic crc (frame ++ rest) ≡ ok (t, f, frame, rest)
    → parse_message frame ≡ ok (h, p)
    → receive crc fuel rest ≡ ok later
    → receive crc (suc fuel) (frame ++ rest)
      ≡ ok (record { message_type = t; flags = f; header = h; payload = p } ∷ later)
unfolding receive
receive_step crc fuel [] rest t f h p later some_bytes d e r = absurd (omega arith)
receive_step crc fuel (b ∷ bs) rest t f h p later some_bytes d e r = rw (d, e, r)

abbrev pub is_last : List Received → Bool
is_last [] = true
is_last (r ∷ rs) = false

is_last-received :
    (s : Stream) (total : ℕ) (ps : List Piece) → is_nil ps ≡ is_last (map (received s total) ps)
is_last-received s total [] = refl
is_last-received s total (p ∷ ps) = refl

pub cut_le : (size total offset : ℕ) (ps : List Piece) → IsCut size total offset ps → offset ≤ total
cut_le size total offset [] cut = omega arith
cut_le size total offset (p ∷ ps) (at, some_bytes, fits, last, full, cut) =
    omega (arith, cut_le size total (offset + length p.payload) ps cut)

-- The frames say what stream they belong to, and only the last one ends it.
abbrev pub IsFrom : Stream → ℕ → List Received → Type 0
IsFrom s total [] = Unit {0}
IsFrom s total (r ∷ rs) =
    (r.message_type ≡ s.message_type)
    × (r.header.channel_id ≡ s.channel_id)
    × (r.header.source ≡ s.source_name)
    × (r.header.target ≡ s.target_name)
    × (r.header.total_len ≡ total)
    × (flag_triple r.flags ≡ (is_last rs, s.end_channel, s.is_response))
    × IsFrom s total rs

module _ (crc : Crc) (s : Stream) (v : IsStream s) (total : ℕ)
    (small : total ≤ max_stream_length) where
  receive-pieces :
      (offset : ℕ) (ps : List Piece)
      → IsCut (max_payload s) total offset ps
      → receive crc (suc (length ps)) (on_the_wire (map (piece_frame crc s total) ps))
        ≡ ok (map (received s total) ps)
  receive-pieces offset [] cut = unfold receive in refl
  receive-pieces offset (p ∷ ps) (at, some_bytes, fits, last, full, cut) =
      receive_step crc (suc (length ps)) (piece_frame crc s total p)
        (on_the_wire (map (piece_frame crc s total) ps)) s.message_type _
        (frame_header s total p.offset) p.payload (map (received s total) ps)
        (omega (arith, length-data_frame crc s p.last total p.offset p.payload v fits))
        (decode_basic-data_frame crc s p.last total p.offset p.payload v fits _)
        (parse_message-data_frame crc s p.last total p.offset p.payload v fits
          (omega (arith, small)) (omega (arith, small, at, cut_le (max_payload s) total _ ps cut)))
        (receive-pieces (offset + length p.payload) ps cut)

  IsFrom-pieces :
      (offset : ℕ) (ps : List Piece)
      → IsCut (max_payload s) total offset ps
      → IsFrom s total (map (received s total) ps)
  IsFrom-pieces offset [] cut = tt
  IsFrom-pieces offset (p ∷ ps) (at, some_bytes, fits, last, full, cut) = (
    refl,
    refl,
    refl,
    refl,
    refl,
    (message_flags-new_flags p.last s.end_channel s.is_response).1
        ∙ ap {B = Bool × Bool × Bool} (λ l. (l, s.end_channel, s.is_response))
            (last ∙ is_last-received s total ps),
    IsFrom-pieces (offset + length p.payload) ps cut,
  )

  frames_fit :
      (offset : ℕ) (ps : List Piece)
      → IsCut (max_payload s) total offset ps
      → All (λ f. length f ≤ max_frame_size) (map (piece_frame crc s total) ps)
  frames_fit offset [] cut = tt
  frames_fit offset (p ∷ ps) (at, some_bytes, fits, last, full, cut) = (
    omega (
      arith,
      length-data_frame crc s p.last total p.offset p.payload v fits,
      v.source.fits,
      v.target.fits,
    ),
    frames_fit (offset + length p.payload) ps cut,
  )

payloads-received :
    (s : Stream) (total : ℕ) (ps : List Piece) → payloads (map (received s total) ps) ≡ joined ps
payloads-received s total [] = refl
payloads-received s total (p ∷ ps) = ap (◌++◌ p.payload) (payloads-received s total ps)

-- A stream of at most 8 MiB between two valid names, cut into frames and read back from the bytes
-- of those frames one behind the other: as many messages as frames, the payloads join to the data, every frame fits in 8 KiB and
-- names the type, the channel, the two names and the length of the stream, and the end of the stream
-- is marked on the last frame only.
pub receive-generate_message_data_stream :
    (crc : Crc) (s : Stream) (bytes : Bytes)
    → IsStream s
    → length bytes ≤ max_stream_length
    → (frames : List Bytes) × (rs : List Received) × (generate_message_data_stream crc s bytes
        ≡ ok frames)
      × (receive crc (suc (length frames)) (on_the_wire frames) ≡ ok rs)
      × (length rs ≡ length frames)
      × (payloads rs ≡ bytes)
      × IsFrom s (length bytes) rs
      × All (λ f. length f ≤ max_frame_size) frames
receive-generate_message_data_stream crc s bytes v small =
    let total : ℕ = length bytes in
    let ps : List Piece = pieces (max_payload s) bytes in
    let (made, cut, whole) = generate_message_data_stream-pieces crc s bytes v small in
    (
      map (piece_frame crc s total) ps,
      map (received s total) ps,
      made,
      rw (length-map ps (piece_frame crc s total)) (receive-pieces crc s v total small 0 ps cut),
      length-map ps (received s total) ∙ sym (length-map ps (piece_frame crc s total)),
      payloads-received s total ps ∙ whole,
      IsFrom-pieces crc s v total small 0 ps cut,
      frames_fit crc s v total small 0 ps cut,
    )
