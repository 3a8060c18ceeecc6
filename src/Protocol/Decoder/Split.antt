-- ===== src/Protocol/Decoder/Split.antt =====
-- What `decode_basic` accepts, and how it behaves as more bytes arrive.
use fernq.Prelude.{
  ℕ, ◌+◌, ◌-◌, ◌≤◌, ◌<◌, ◌≡◌, sym, ap, ◌∙◌, some, ◌++◌, length, take, drop, length-take,
  length-drop, take_all, take-append-drop, ltb→le, ok, arith, take_ok,
}
use fernq.Prelude.Bytes.{Bytes, index, slice, read_16, read_32}
use fernq.Prelude.Bytes.Front.{index-front, read_32-front, slice-front, slice-eq-ok}
use fernq.Protocol.{Crc, magic, version}
use fernq.Protocol.Error.{ProtocolError}
use fernq.Protocol.Frame.{
  MessageType, MessageFlags, type_byte, validate_magic, validate_version, message_flags,
}
use fernq.Protocol.Frame.RoundTrip.{type_byte-message_type}
use fernq.Protocol.Decoder.{decode_basic, check_crc, checked_add, checked_sub}
use fernq.Protocol.Decoder.Accepts.{Accepts, decode_basic→accepts}

checked_add-eq : (a b c : ℕ) → checked_add a b ≡ some c → c ≡ a + b
unfolding checked_add
checked_add-eq a b c h = ground arith

checked_sub-eq : (a b c : ℕ) → checked_sub a b ≡ some c → c ≡ a - b
unfolding checked_sub
checked_sub-eq a b c h = ground arith

validate_version-eq : (v w : ℕ) → validate_version v ≡ ok w → v ≡ version
unfolding validate_version
validate_version-eq v w h = ground arith

message_flags-eq : (v : ℕ) (f : MessageFlags) → message_flags v ≡ ok f → v ≡ f.bits
unfolding message_flags
message_flags-eq v f h = ground arith

validate_magic-eq :
    (first : Bytes) (m : ℕ)
    → validate_magic first ≡ ok m
    → read_32 {E = ProtocolError} first 0 ≡ ok magic
unfolding validate_magic
validate_magic-eq first m h = ground arith

check_crc-eq :
    (crc : Crc) (current : Bytes) (offset : ℕ)
    → check_crc crc current offset ≡ ok tt
    → read_16 {E = ProtocolError} current offset
      ≡ ok (crc.checksum (take (offset - 4) (drop 4 current)))
unfolding check_crc
check_crc-eq crc current offset h =
    take_ok (slice {E = ProtocolError} current 4 offset) _ h λ covered covered_ok h'.
      take_ok (read_16 {E = ProtocolError} current offset) _ h' λ received received_ok h''.
        let (lo, hi, e) = slice-eq-ok {E = ProtocolError} current 4 offset covered_ok in
        rw e (ground arith)

-- A frame as `decode_basic` should accept it, read from the frame alone.
pub record IsFrame (crc : Crc) (frame : Bytes) (t : MessageType) (f : MessageFlags) : Type 0 where
  pub header : 11 ≤ length frame
  pub magic_number : read_32 {E = ProtocolError} frame 0 ≡ ok magic
  pub version_byte : index {E = ProtocolError} frame 4 ≡ ok version
  pub type_code : index {E = ProtocolError} frame 5 ≡ ok (type_byte t)
  pub flags_byte : index {E = ProtocolError} frame 6 ≡ ok f.bits
  pub length_field : read_32 {E = ProtocolError} frame 7 ≡ ok (length frame - 11)
  pub check :
      read_16 {E = ProtocolError} frame (length frame - 2)
      ≡ ok (crc.checksum (take (length frame - 6) (drop 4 frame)))

-- The facts of an accepted input, over its tests.
module _ (crc : Crc) (bytes : Bytes) (t : MessageType) (f : MessageFlags)
    (current remaining : Bytes) (a : Accepts crc bytes t f current remaining) where
  pub total_eq : a.total_frame_len ≡ 11 + a.frame_length
  total_eq = checked_add-eq 11 a.frame_length a.total_frame_len a.total_ok

  current_eq : take a.total_frame_len bytes ≡ current
  current_eq =
      let e : a.total_frame_len - 0 ≡ a.total_frame_len = omega arith in
      rw e at (slice-eq-ok {E = ProtocolError} bytes 0 a.total_frame_len a.current_ok).2

  remaining_eq : drop a.total_frame_len bytes ≡ remaining
  remaining_eq =
      sym (
        take_all (length bytes - a.total_frame_len) (drop a.total_frame_len bytes)
          (omega (arith, length-drop a.total_frame_len bytes)))
      ∙ (slice-eq-ok {E = ProtocolError} bytes a.total_frame_len (length bytes) a.remaining_ok).2

  pub rejoined : current ++ remaining ≡ bytes
  rejoined = rw (← current_eq, ← remaining_eq) (take-append-drop a.total_frame_len bytes)

  pub length-current : length current ≡ a.total_frame_len
  length-current = omega (
    arith,
    ap length current_eq,
    length-take a.total_frame_len bytes,
    ltb→le (length bytes) a.total_frame_len a.is_complete,
  )

  offset_eq : a.crc_offset ≡ length current - 2
  offset_eq =
      omega (arith, checked_sub-eq a.total_frame_len 2 a.crc_offset a.offset_ok, length-current)

  at_current :
      (i x : ℕ)
      → i < length current
      → index {E = ProtocolError} bytes i ≡ ok x
      → index {E = ProtocolError} current i ≡ ok x
  at_current i x h e = sym (index-front current remaining i h) ∙ rw rejoined e

  first_eq : read_32 {E = ProtocolError} current 0 ≡ ok magic
  first_eq =
      let first : slice {E = ProtocolError} current 0 4 ≡ ok a.first =
        sym (
          slice-front current remaining 0 4 (omega arith) (omega (arith, length-current, total_eq)))
        ∙ rw rejoined a.first_ok in
      let whole : take 4 current ≡ a.first =
        (slice-eq-ok {E = ProtocolError} current 0 4 first).2 in
      let e : read_32 {E = ProtocolError} (take 4 current ++ drop 4 current) 0
          ≡ read_32 (take 4 current) 0 =
        read_32-front (take 4 current) (drop 4 current) 0
          (omega (arith, length-take 4 current, length-current, total_eq)) in
      rw (take-append-drop 4 current) at e ∙ rw whole (validate_magic-eq a.first magic a.magic_ok)

  IsFrame-current : IsFrame crc current t f
  IsFrame-current =
      let long : 11 ≤ length current = omega (arith, length-current, total_eq) in
      let version_is : a.version_byte ≡ version =
        validate_version-eq a.version_byte version a.version_ok in
      let offset_is : a.crc_offset - 4 ≡ length current - 6 = omega (arith, offset_eq) in
      record {
        header = long;
        magic_number = first_eq;
        version_byte = at_current 4 version (omega arith) (rw version_is at a.version_at);
        type_code =
            at_current 5 (type_byte t) (omega arith)
              (rw (type_byte-message_type a.type_code t a.type_ok) a.type_at);
        flags_byte =
            at_current 6 f.bits (omega arith)
              (rw (message_flags-eq a.flags_byte f a.flags_ok) at a.flags_at);
        length_field =
            sym (read_32-front current remaining 7 (omega arith))
            ∙ rw rejoined (a.length_ok ∙ ap ok (omega (arith, length-current, total_eq)));
        check = rw (← offset_eq, ← offset_is) (check_crc-eq crc current a.crc_offset a.crc_ok);
      }

module _ (crc : Crc) (bytes : Bytes) (t : MessageType) (f : MessageFlags)
    (current remaining : Bytes) where
  -- What `decode_basic` accepts is a frame with its magic number, its version, its length, its type
  -- and flags and a matching checksum, and the frame and the rest make up the input.
  pub decode_basic_sound :
      decode_basic crc bytes ≡ ok (t, f, current, remaining)
      → (current ++ remaining ≡ bytes) × IsFrame crc current t f
  decode_basic_sound h =
      let a : Accepts crc bytes t f current remaining =
        decode_basic→accepts crc bytes t f current remaining h in
      (
        rejoined crc bytes t f current remaining a,
        IsFrame-current crc bytes t f current remaining a,
      )
