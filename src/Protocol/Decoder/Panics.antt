-- ===== src/Protocol/Decoder/Panics.antt =====
-- Inputs on which decoders panic: a header cut short, and a name that runs past the end.
use fernq.Prelude.{
  ℕ, zero, suc, ◌+◌, ◌-◌, ◌≤◌, ◌<◌, ◌≡◌, refl, length, take, drop, le→ltb, ok, panic, arith, ◌==◌,
  false, true,
}
use fernq.Prelude.Bytes.{Bytes, index, slice, read_16, read_32, to_be_32}
use fernq.Prelude.Bytes.Bounds.{slice_le}
use fernq.Prelude.Text.{text}
use fernq.Protocol.Error.{ProtocolError}
use fernq.Protocol.Frame.{
  MessageType, MessageFlags, message_flags, validate_magic, validate_version, try_from_slice,
}
use fernq.Protocol.Frame.RoundTrip.{message_type-type_byte}
use fernq.Protocol.Encoder.{fixed_header}
use fernq.Protocol.Decoder.{decode_header, read_name, get_message_source_target, parse_message}

slice_past :
    {E : Type 0} (bytes : Bytes) (a b : ℕ) → length bytes < b → slice {E = E} bytes a b ≡ panic
unfolding slice
slice_past bytes a b h = ground arith

read_name_past :
    (bytes : Bytes) (i n : ℕ) (name_type : Bytes)
    → read_16 {E = ProtocolError} bytes i ≡ ok n
    → 1 ≤ n
    → n ≤ 128
    → length bytes < i + 2 + n
    → read_name bytes i 2 name_type ≡ panic
unfolding read_name
read_name_past bytes i n name_type e lo hi h =
    let some_bytes : (n == 0) ≡ false = ground arith in
    rw (
      e,
      read_name,
      le→ltb 128 n hi,
      some_bytes,
      slice_past {E = ProtocolError} bytes (i + 2) (i + 2 + n) h,
    )

-- A frame of at least 41 bytes whose source name is said to be 1 to 128 bytes long, and longer than
-- what follows, makes both decoders of the names panic.
pub parse_message_panics :
    (bytes : Bytes) (n : ℕ)
    → 41 ≤ length bytes
    → read_16 {E = ProtocolError} bytes 27 ≡ ok n
    → 1 ≤ n
    → n ≤ 128
    → length bytes < 29 + n
    → (parse_message bytes ≡ panic) × (get_message_source_target bytes ≡ panic)
unfolding parse_message get_message_source_target try_from_slice
parse_message_panics bytes n long e lo hi h =
    let (id_ok, id_len) = slice_le {E = ProtocolError} bytes 11 27 (omega arith) (omega arith) in
    let past : read_name bytes 27 2 (text "source") ≡ panic =
      read_name_past bytes 27 n (text "source") e lo hi (omega arith) in
    let sixteen : (length (take (27 - 11) (drop 11 bytes)) == 16) ≡ true = ground (arith, id_len) in
    (
      rw (le→ltb (length bytes) 41 long, id_ok, sixteen, past),
      rw (le→ltb (length bytes) 41 long, past),
    )

-- `decode_header` asks for four bytes only: the first 4 to 10 bytes of any valid header make it
-- panic.
pub decode_header_panics :
    (t : MessageType) (f : MessageFlags) (n k : ℕ)
    → message_flags f.bits ≡ ok f
    → 4 ≤ k
    → k < 11
    → decode_header (take k (fixed_header t f n)) ≡ panic
unfolding decode_header fixed_header to_be_32 slice index read_32 validate_magic validate_version
decode_header_panics t f n (suc (suc (suc (suc zero)))) v lo hi = refl
decode_header_panics t f n (suc (suc (suc (suc (suc zero))))) v lo hi = refl
decode_header_panics t f n (suc (suc (suc (suc (suc (suc zero)))))) v lo hi =
    rw (message_type-type_byte t)
decode_header_panics t f n (suc (suc (suc (suc (suc (suc (suc zero))))))) v lo hi =
    rw (message_type-type_byte t, v)
decode_header_panics t f n (suc (suc (suc (suc (suc (suc (suc (suc zero)))))))) v lo hi =
    rw (message_type-type_byte t, v)
decode_header_panics t f n (suc (suc (suc (suc (suc (suc (suc (suc (suc zero))))))))) v lo hi =
    rw (message_type-type_byte t, v)
decode_header_panics t f n (suc (suc (suc (suc (suc (suc (suc (suc (suc (suc zero)))))))))) v lo
      hi =
    rw (message_type-type_byte t, v)
decode_header_panics t f n (suc (suc (suc (suc (suc (suc (suc (suc (suc (suc (suc k))))))))))) v lo
      hi =
    absurd (omega arith)
decode_header_panics t f n _ v lo hi = absurd (omega arith)
