-- ===== src/Protocol/Decoder/Header.antt =====
-- `decode_header` on the first eleven bytes of a frame, as the server applies it.
use fernq.Prelude.{
  ℕ, ◌+◌, ◌-◌, ◌≤◌, ◌<◌, ◌≡◌, sym, ap, ◌∙◌, false, length, take, drop, take-append-drop,
  length-take, ltb, ltb→le, le→ltb, ok, arith,
}
use fernq.Prelude.Bytes.{Bytes, index, slice, read_32}
use fernq.Prelude.Bytes.Front.{index-front, slice-front, read_32-front}
use fernq.Protocol.{Crc}
use fernq.Protocol.Error.{ProtocolError}
use fernq.Protocol.Frame.{MessageType, MessageFlags}
use fernq.Protocol.Decoder.{decode_header, decode_basic}
use fernq.Protocol.Decoder.Accepts.{Accepts, decode_basic→accepts}
use fernq.Protocol.Decoder.Split.{total_eq, length-current}

module _ (bytes : Bytes) (n : ℕ) (enough : n ≤ length bytes) where
  length-front : length (take n bytes) ≡ n
  length-front = omega (arith, length-take n bytes)

  index-take : (i : ℕ) → i < n → index {E = ProtocolError} (take n bytes) i ≡ index bytes i
  index-take i h =
      sym (index-front (take n bytes) (drop n bytes) i (omega (arith, length-front)))
      ∙ ap (λ b. index b i) (take-append-drop n bytes)

  read_32-take :
      (i : ℕ) → i + 4 ≤ n → read_32 {E = ProtocolError} (take n bytes) i ≡ read_32 bytes i
  read_32-take i h =
      sym (read_32-front (take n bytes) (drop n bytes) i (omega (arith, length-front)))
      ∙ ap (λ b. read_32 b i) (take-append-drop n bytes)

  slice-take :
      (a b : ℕ) → a ≤ b → b ≤ n → slice {E = ProtocolError} (take n bytes) a b ≡ slice bytes a b
  slice-take a b h k =
      sym (slice-front (take n bytes) (drop n bytes) a b h (omega (arith, length-front)))
      ∙ ap (λ x. slice x a b) (take-append-drop n bytes)

-- When `decode_basic` accepts, `decode_header` on the first eleven bytes gives the same type and flags,
-- and the number of bytes of the frame that follow them.
pub decode_header-decode_basic :
    (crc : Crc) (bytes : Bytes) (t : MessageType) (f : MessageFlags) (current remaining : Bytes)
    → decode_basic crc bytes ≡ ok (t, f, current, remaining)
    → decode_header (take 11 bytes) ≡ ok (t, f, length current - 11)
unfolding decode_header
decode_header-decode_basic crc bytes t f current remaining h =
    let a : Accepts crc bytes t f current remaining =
      decode_basic→accepts crc bytes t f current remaining h in
    let enough : 11 ≤ length bytes = ltb→le _ _ a.has_header in
    let long : ltb (length (take 11 bytes)) 4 ≡ false =
      le→ltb _ _ (omega (arith, length-front bytes 11 enough)) in
    let len : a.frame_length ≡ length current - 11 = omega (
      arith,
      total_eq crc bytes t f current remaining a,
      length-current crc bytes t f current remaining a,
    ) in
    rw (
      long,
      slice-take bytes 11 enough 0 4 (omega arith) (omega arith),
      a.first_ok,
      a.magic_ok,
      index-take bytes 11 enough 4 (omega arith),
      a.version_at,
      a.version_ok,
      index-take bytes 11 enough 5 (omega arith),
      a.type_at,
      a.type_ok,
      index-take bytes 11 enough 6 (omega arith),
      a.flags_at,
      a.flags_ok,
      read_32-take bytes 11 enough 7 (omega arith),
      a.length_ok,
      len,
    )
