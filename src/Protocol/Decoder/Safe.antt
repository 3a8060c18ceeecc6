-- ===== src/Protocol/Decoder/Safe.antt =====
-- Which decoders return on every input, and where the others panic.
use fernq.Prelude.{
  ℕ, ◌+◌, ◌-◌, ◌^◌, ◌≤◌, ◌<◌, ◌≡◌, some, length, take, drop, All, All-take, length-take, ltb,
  ltb→le, Result, arith, ◌>>=◌, fail_if, not, ◌==◌, Returns, ok-Returns, known-Returns,
  some-Returns, >>=-Returns, fail_if-Returns,
}
use fernq.Prelude.Bytes.{Bytes, IsByte, index}
use fernq.Prelude.Bytes.Bounds.{index_lt, slice_le, read_16_lt, read_32_lt}
use fernq.Protocol.{Crc}
use fernq.Protocol.Error.{ProtocolError, crc_mismatch}
use fernq.Protocol.Frame.{
  MessageType, MessageFlags, validate_magic, validate_version, message_type, message_flags,
}
use fernq.Protocol.Decoder.{decode_header, decode_basic, check_crc, checked_add, checked_sub}

validate_version-Returns : (v : ℕ) → Returns (validate_version v)
unfolding validate_version Returns
validate_version-Returns v = ground arith

message_type-Returns : (v : ℕ) → Returns (message_type v)
unfolding message_type Returns
message_type-Returns v = ground arith

message_flags-Returns : (v : ℕ) → Returns (message_flags v)
unfolding message_flags Returns
message_flags-Returns v = ground arith

validate_magic-Returns :
    (bytes : Bytes) → length bytes ≡ 4 → All IsByte bytes → Returns (validate_magic bytes)
unfolding validate_magic Returns
validate_magic-Returns bytes h all =
    let (m, e, l) = read_32_lt {E = ProtocolError} bytes 0 (omega arith) all in ground (arith, e)

crc_compared : (a b : ℕ) → Returns (fail_if (not (a == b)) (crc_mismatch b a))
unfolding Returns
crc_compared a b = ground arith

check_crc-Returns :
    (crc : Crc) (current : Bytes) (offset : ℕ)
    → 4 ≤ offset
    → offset + 2 ≤ length current
    → All IsByte current
    → Returns (check_crc crc current offset)
unfolding check_crc
check_crc-Returns crc current offset lo hi all =
    let (r, e, l) = read_16_lt {E = ProtocolError} current offset hi all in
    known-Returns _ _ (slice_le current 4 offset lo (omega arith)).0
      (known-Returns _ _ e (crc_compared _ _))

-- Reading the version, the type and the flags, and going on with them.
codes_Returns {ℓ} :
    {B : Type ℓ} (bytes : Bytes)
    → 7 ≤ length bytes
    → All IsByte bytes
    → (k : MessageType → MessageFlags → Result ProtocolError B)
    → ((t : MessageType) (f : MessageFlags) → Returns (k t f))
    → Returns (
        index bytes 4 >>= λ v. validate_version v >>= λ version. index bytes 5 >>= λ t.
        message_type t >>= λ msg_type.
        index bytes 6 >>= λ f. message_flags f >>= λ flags. k msg_type flags)
codes_Returns bytes long all k h =
    let (v, ve, vl) = index_lt {E = ProtocolError} bytes 4 (omega arith) all in
    let (t, te, tl) = index_lt {E = ProtocolError} bytes 5 (omega arith) all in
    let (f, fe, fl) = index_lt {E = ProtocolError} bytes 6 (omega arith) all in
    known-Returns _ _ ve (
      >>=-Returns _ _ (validate_version-Returns v) λ v' _. known-Returns _ _ te (
        >>=-Returns _ _ (message_type-Returns t)
          λ t' _. known-Returns _ _ fe (>>=-Returns _ _ (message_flags-Returns f) λ f' _. h t' f')))

total_ok : (len : ℕ) → len < 2 ^ 32 → checked_add 11 len ≡ some (11 + len)
unfolding checked_add
total_ok len h = ground arith

offset_ok : (total : ℕ) → 11 ≤ total → checked_sub total 2 ≡ some (total - 2)
unfolding checked_sub
offset_ok total h = ground arith

-- `decode_basic` returns on every input: it never indexes or slices out of range.
pub decode_basic-Returns :
    (crc : Crc) (bytes : Bytes) → All IsByte bytes → Returns (decode_basic crc bytes)
unfolding decode_basic
decode_basic-Returns crc bytes all = fail_if-Returns (ltb (length bytes) 11) _ _ λ header.
    let long : 11 ≤ length bytes = ltb→le _ _ header in
    let (len, len_ok, len_lt) = read_32_lt {E = ProtocolError} bytes 7 (omega arith) all in
    let total : ℕ = 11 + len in
    known-Returns _ _ (slice_le bytes 0 4 (omega arith) (omega arith)).0 (
      >>=-Returns _ _
        (validate_magic-Returns (take 4 bytes) (omega (arith, length-take 4 bytes))
          (All-take IsByte 4 bytes all))
        λ m magic_ok. known-Returns _ _ len_ok (
          some-Returns _ _ _ {a = total} (total_ok len len_lt) (
            fail_if-Returns (ltb (length bytes) total) _ _ λ complete.
              let whole : total ≤ length bytes = ltb→le _ _ complete in
              let current : Bytes = take (total - 0) (drop 0 bytes) in
              let (current_ok, current_len) =
                slice_le {E = ProtocolError} bytes 0 total (omega arith) whole in
              known-Returns _ _ current_ok (
                known-Returns _ _ (slice_le bytes total (length bytes) whole (omega arith)).0 (
                  some-Returns _ _ _ {a = total - 2} (offset_ok total (omega arith)) (
                    >>=-Returns _ _
                      (check_crc-Returns crc current (total - 2) (omega arith)
                        (omega (arith, current_len)) (All-take IsByte (total - 0) bytes all))
                      λ u crc_ok.
                        codes_Returns bytes (omega arith) all _ λ t f. ok-Returns _ _))))))

-- `decode_header` returns on every input of at least eleven bytes.
pub decode_header-Returns :
    (bytes : Bytes) → 11 ≤ length bytes → All IsByte bytes → Returns (decode_header bytes)
unfolding decode_header
decode_header-Returns bytes long all =
    let (n, ne, nl) = read_32_lt {E = ProtocolError} bytes 7 long all in
    fail_if-Returns (ltb (length bytes) 4) _ _ λ some_bytes.
      known-Returns _ _ (slice_le bytes 0 4 (omega arith) (omega arith)).0 (
        >>=-Returns _ _
          (validate_magic-Returns (take 4 bytes) (omega (arith, length-take 4 bytes))
            (All-take IsByte 4 bytes all))
          λ m magic_ok.
            codes_Returns bytes (omega arith) all _ λ t f. known-Returns _ _ ne (ok-Returns _ _))
