-- ===== src/Protocol/Stream/Pieces.antt =====
-- The stream as it should be cut, apart from the loop that cuts it, and the loop against it.
use fernq.Prelude.{
  is_nil, ℕ, zero, suc, ◌+◌, ◌-◌, ◌≤◌, ◌<◌, min, ◌≡◌, refl, sym, ap, Bool, true, false, List, [],
  ◌∷◌, ◌++◌, map, length, take, drop, append_assoc, append-nil, length-take, length-drop,
  take-append-drop, lt→ltb, le→ltb, ltb, leb, ok, arith, ◌==◌,
}
use fernq.Prelude.Bytes.{Bytes}
use fernq.Prelude.Bytes.Cursor.{At, At-start, At-step, slice-At}
use fernq.Protocol.{Crc, max_stream_length}
use fernq.Protocol.Encoder.{
  Stream, data_frame, stream_loop, max_payload, generate_message_data_stream,
}
use fernq.Protocol.Stream.{IsStream}

pub record Piece : Type 0 where
  pub offset : ℕ
  pub payload : Bytes
  pub last : Bool

abbrev pub is_empty : Bytes → Bool
is_empty [] = true
is_empty (b ∷ bs) = false

-- Pieces of `size` bytes from `offset` on, the last one shorter. No more pieces than bytes.
unfoldable pub pieces_within : (count size offset : ℕ) → Bytes → List Piece
pieces_within zero size offset rest = []
pieces_within (suc count) size offset [] = []
pieces_within (suc count) size offset (b ∷ bs) =
    record { offset = offset; payload = take size (b ∷ bs); last = is_empty (drop size (b ∷ bs)) }
    ∷ pieces_within count size (offset + length (take size (b ∷ bs))) (drop size (b ∷ bs))

unfoldable pub pieces : ℕ → Bytes → List Piece
unfolding pieces_within
pieces size bytes = pieces_within (suc (length bytes)) size 0 bytes

-- The frame of a piece, in a stream of `total` bytes.
abbrev pub piece_frame : Crc → Stream → ℕ → Piece → Bytes
piece_frame crc s total p = data_frame crc s p.last total p.offset p.payload

-- Nothing follows an offset exactly when it reaches the end.
ends_here :
    (bytes : Bytes) (i : ℕ) (rest : Bytes) → At bytes i rest → leb (length bytes) i ≡ is_empty rest
ends_here bytes i [] at = ground (arith, ap length at.follows, length-drop i bytes)
ends_here bytes i (b ∷ bs) at = ground (arith, ap length at.follows, length-drop i bytes)

module _ (crc : Crc) (s : Stream) (bytes : Bytes) (size : ℕ) (some_room : 0 < size) where
  pub stream_loop-pieces :
      (fuel offset : ℕ) (rest : Bytes) (frames : List Bytes)
      → At bytes offset rest
      → length rest < fuel
      → stream_loop crc s bytes size fuel offset frames
        ≡ ok
            (frames ++ map (piece_frame crc s (length bytes)) (pieces_within fuel size offset rest))
  unfolding stream_loop pieces_within
  stream_loop-pieces zero offset rest frames at h = absurd (omega arith)
  stream_loop-pieces (suc fuel) offset [] frames at h =
      let e : ltb offset (length bytes) ≡ false =
        le→ltb _ _ (omega (arith, ap length at.follows, length-drop offset bytes)) in
      rw (e, stream_loop, append-nil frames)
  stream_loop-pieces (suc fuel) offset (b ∷ bs) frames at h =
      let rest : Bytes = b ∷ bs in
      let total : ℕ = length bytes in
      let left : length rest ≡ total - offset =
        omega (arith, ap length at.follows, length-drop offset bytes) in
      let cut : ℕ = length (take size rest) in
      let cut_len : min size (total - offset) ≡ cut = omega (arith, length-take size rest, left) in
      let parts : At bytes offset (take size rest ++ drop size rest) =
        rw (take-append-drop size rest) at in
      let next : At bytes (offset + cut) (drop size rest) =
        At-step bytes (take size rest) (drop size rest) offset (offset + cut) parts refl in
      let more : ltb offset total ≡ true = lt→ltb _ _ (omega (arith, left, at.within)) in
      let ends : leb total (offset + cut) ≡ is_empty (drop size rest) =
        ends_here bytes (offset + cut) (drop size rest) next in
      rw
        (
          more,
          stream_loop,
          cut_len,
          slice-At bytes (take size rest) (drop size rest) offset (offset + cut) parts refl,
          ends,
          stream_loop-pieces fuel (offset + cut) (drop size rest) _ next
              (omega (arith, length-drop size rest)),
        )
        (ap ok (append_assoc frames _ _))

-- The pieces follow one another from `offset` to `total`, none is empty or over `size`, all but the
-- last are of `size`, and only the last is marked as such.
abbrev pub IsCut : (size total offset : ℕ) → List Piece → Type 0
IsCut size total offset [] = offset ≡ total
IsCut size total offset (p ∷ ps) =
    (p.offset ≡ offset)
    × (1 ≤ length p.payload)
    × (length p.payload ≤ size)
    × (p.last ≡ is_nil ps)
    × (p.last ≡ false → length p.payload ≡ size)
    × IsCut size total (offset + length p.payload) ps

abbrev pub joined : List Piece → Bytes
joined [] = []
joined (p ∷ ps) = p.payload ++ joined ps

module _ (size : ℕ) (some_room : 0 < size) where
  joined-pieces_within :
      (count offset : ℕ) (rest : Bytes)
      → length rest < count
      → joined (pieces_within count size offset rest) ≡ rest
  unfolding pieces_within
  joined-pieces_within zero offset rest h = absurd (omega arith)
  joined-pieces_within (suc count) offset [] h = refl
  joined-pieces_within (suc count) offset (b ∷ bs) h =
      rw
        (joined-pieces_within count _ (drop size (b ∷ bs))
          (omega (arith, length-drop size (b ∷ bs))))
        (take-append-drop size (b ∷ bs))

  is_nil-pieces_within :
      (count offset : ℕ) (rest : Bytes)
      → length rest < count
      → is_nil (pieces_within count size offset rest) ≡ is_empty rest
  unfolding pieces_within
  is_nil-pieces_within zero offset rest h = absurd (omega arith)
  is_nil-pieces_within (suc count) offset [] h = refl
  is_nil-pieces_within (suc count) offset (b ∷ bs) h = refl

  full_if_more :
      (bytes : Bytes) → is_empty (drop size bytes) ≡ false → length (take size bytes) ≡ size
  full_if_more bytes h = ground (arith, length-take size bytes, length-drop size bytes)

  IsCut-pieces_within :
      (count total offset : ℕ) (rest : Bytes)
      → length rest < count
      → offset + length rest ≡ total
      → IsCut size total offset (pieces_within count size offset rest)
  unfolding pieces_within
  IsCut-pieces_within zero total offset rest h e = absurd (omega arith)
  IsCut-pieces_within (suc count) total offset [] h e = omega arith
  IsCut-pieces_within (suc count) total offset (b ∷ bs) h e =
      let bytes : Bytes = b ∷ bs in
      let shorter : length (drop size bytes) < count = omega (arith, length-drop size bytes) in
      (
        refl,
        omega (arith, length-take size bytes),
        omega (arith, length-take size bytes),
        sym (is_nil-pieces_within count _ (drop size bytes) shorter),
        full_if_more bytes,
        IsCut-pieces_within count total _ (drop size bytes) shorter
            (omega (arith, length-take size bytes, length-drop size bytes)),
      )

  pub joined-pieces : (bytes : Bytes) → joined (pieces size bytes) ≡ bytes
  unfolding pieces
  joined-pieces bytes = joined-pieces_within (suc (length bytes)) 0 bytes (omega arith)

  pub IsCut-pieces : (bytes : Bytes) → IsCut size (length bytes) 0 (pieces size bytes)
  unfolding pieces
  IsCut-pieces bytes =
      IsCut-pieces_within (suc (length bytes)) (length bytes) 0 bytes (omega arith) (omega arith)

max_payload_pos : (s : Stream) → IsStream s → 7895 ≤ max_payload s
max_payload_pos s v = omega (arith, v.source.fits, v.target.fits)

-- With names of 1 to 128 bytes and a stream of at most 8 MiB the loop ends, and the frames are those
-- of the pieces into which the stream should be cut.
pub generate_message_data_stream-pieces :
    (crc : Crc) (s : Stream) (bytes : Bytes)
    → IsStream s
    → length bytes ≤ max_stream_length
    → (generate_message_data_stream crc s bytes
        ≡ ok (map (piece_frame crc s (length bytes)) (pieces (max_payload s) bytes)))
      × IsCut (max_payload s) (length bytes) 0 (pieces (max_payload s) bytes)
      × (joined (pieces (max_payload s) bytes) ≡ bytes)
unfolding generate_message_data_stream pieces
generate_message_data_stream-pieces crc s bytes v h =
    let room : 0 < max_payload s = omega (arith, max_payload_pos s v) in
    let s1 : (length s.source_name == 0) ≡ false = ground (arith, v.source.filled) in
    let t1 : (length s.target_name == 0) ≡ false = ground (arith, v.target.filled) in
    let m1 : (max_payload s == 0) ≡ false = ground (arith, room) in
    (
      rw (
        s1,
        t1,
        le→ltb 128 (length s.source_name) v.source.fits,
        le→ltb 128 (length s.target_name) v.target.fits,
        m1,
        le→ltb max_stream_length (length bytes) h,
        stream_loop-pieces crc s bytes (max_payload s) room (suc (length bytes)) 0 bytes []
            (At-start bytes) (omega arith),
      ),
      IsCut-pieces (max_payload s) room bytes,
      joined-pieces (max_payload s) room bytes,
    )
