-- ===== src/Protocol/Decoder/Accepts.antt =====
-- When `decode_basic` accepts: its tests and reads, one by one.
use fernq.Prelude.{
  ℕ, ◌≡◌, false, some, length, ltb, ok, take_ok, take_some, pass_if, arith, subst, ap, ◌∙◌,
}
use fernq.Prelude.Bytes.{Bytes, index, slice, read_32}
use fernq.Protocol.{Crc, magic, version}
use fernq.Protocol.Error.{ProtocolError}
use fernq.Protocol.Frame.{
  MessageType, MessageFlags, validate_magic, validate_version, message_type, message_flags,
}
use fernq.Protocol.Decoder.{decode_basic, check_crc, checked_add, checked_sub}

pub record Accepts (crc : Crc) (bytes : Bytes) (t : MessageType) (f : MessageFlags)
    (current remaining : Bytes) : Type 0 where
  pub frame_length : ℕ
  pub total_frame_len : ℕ
  pub crc_offset : ℕ
  pub first : Bytes
  pub version_byte : ℕ
  pub type_code : ℕ
  pub flags_byte : ℕ
  pub has_header : ltb (length bytes) 11 ≡ false
  pub first_ok : slice {E = ProtocolError} bytes 0 4 ≡ ok first
  pub magic_ok : validate_magic first ≡ ok magic
  pub length_ok : read_32 {E = ProtocolError} bytes 7 ≡ ok frame_length
  pub total_ok : checked_add 11 frame_length ≡ some total_frame_len
  pub is_complete : ltb (length bytes) total_frame_len ≡ false
  pub current_ok : slice {E = ProtocolError} bytes 0 total_frame_len ≡ ok current
  pub remaining_ok : slice {E = ProtocolError} bytes total_frame_len (length bytes) ≡ ok remaining
  pub offset_ok : checked_sub total_frame_len 2 ≡ some crc_offset
  pub crc_ok : check_crc crc current crc_offset ≡ ok tt
  pub version_at : index {E = ProtocolError} bytes 4 ≡ ok version_byte
  pub version_ok : validate_version version_byte ≡ ok version
  pub type_at : index {E = ProtocolError} bytes 5 ≡ ok type_code
  pub type_ok : message_type type_code ≡ ok t
  pub flags_at : index {E = ProtocolError} bytes 6 ≡ ok flags_byte
  pub flags_ok : message_flags flags_byte ≡ ok f

module _ (crc : Crc) (bytes : Bytes) (t : MessageType) (f : MessageFlags)
    (current remaining : Bytes) where
  pub accepts→decode_basic :
      Accepts crc bytes t f current remaining
      → decode_basic crc bytes ≡ ok (t, f, current, remaining)
  unfolding decode_basic
  accepts→decode_basic a = rw (
    a.has_header, a.first_ok, a.magic_ok, a.length_ok, a.total_ok, a.is_complete, a.current_ok,
    a.remaining_ok, a.offset_ok, a.crc_ok, a.version_at, a.version_ok, a.type_at, a.type_ok,
    a.flags_at, a.flags_ok,
  )

validate_magic-eq-ok :
    (first : Bytes) (m : ℕ) → validate_magic first ≡ ok m → validate_magic first ≡ ok magic
unfolding validate_magic
validate_magic-eq-ok first m h = ground arith

validate_version-eq-ok : (v m : ℕ) → validate_version v ≡ ok m → validate_version v ≡ ok version
unfolding validate_version
validate_version-eq-ok v m h = ground arith

module _ (crc : Crc) (bytes : Bytes) (t : MessageType) (f : MessageFlags)
    (current remaining : Bytes) where
  pub decode_basic→accepts :
      decode_basic crc bytes ≡ ok (t, f, current, remaining)
      → Accepts crc bytes t f current remaining
  unfolding decode_basic
  decode_basic→accepts h = pass_if _ _ _ h λ short h1. take_ok _ _ h1 λ first first_ok h2.
      take_ok _ _ h2 λ m magic_ok h3. take_ok _ _ h3 λ len length_ok h4.
        take_some _ _ _ h4 λ total total_ok h5. pass_if _ _ _ h5 λ is_complete h6.
          take_ok _ _ h6 λ cur current_ok h7. take_ok _ _ h7 λ rem remaining_ok h8.
            take_some _ _ _ h8 λ off offset_ok h9.
              take_ok (check_crc crc cur off) _ h9 λ u crc_ok h10.
                take_ok _ _ h10 λ v version_at h11. take_ok _ _ h11 λ w version_ok h12.
                  take_ok _ _ h12 λ tc type_at h13. take_ok _ _ h13 λ ty type_ok h14.
                    take_ok _ _ h14 λ fc flags_at h15. take_ok _ _ h15 λ fl flags_ok h16.
                      let et : ty ≡ t = cc h16 in
                      let ef : fl ≡ f = cc h16 in
                      let ec : cur ≡ current = cc h16 in
                      let er : rem ≡ remaining = cc h16 in
                      record {
                        frame_length = len;
                        total_frame_len = total;
                        crc_offset = off;
                        first = first;
                        version_byte = v;
                        type_code = tc;
                        flags_byte = fc;
                        has_header = short;
                        first_ok = first_ok;
                        magic_ok = validate_magic-eq-ok first m magic_ok;
                        length_ok = length_ok;
                        total_ok = total_ok;
                        is_complete = is_complete;
                        current_ok = current_ok ∙ ap ok ec;
                        remaining_ok = remaining_ok ∙ ap ok er;
                        offset_ok = offset_ok;
                        crc_ok = subst (λ c. check_crc crc c off ≡ ok u) ec crc_ok;
                        version_at = version_at;
                        version_ok = validate_version-eq-ok v w version_ok;
                        type_at = type_at;
                        type_ok = type_ok ∙ ap ok et;
                        flags_at = flags_at;
                        flags_ok = flags_ok ∙ ap ok ef;
                      }
