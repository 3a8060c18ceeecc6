-- ===== src/Protocol/Decoder/Arrival.antt =====
-- `decode_basic` on a buffer that grows: bytes behind a frame do not matter, and a frame of which
-- only a part has arrived is reported as incomplete.
use fernq.Prelude.{
  ℕ, ◌+◌, ◌≤◌, ◌<◌, ◌≡◌, sym, ap, ◌∙◌, ◌++◌, [], length, append_assoc, append-nil, length-append,
  ltb, ltb→le, ltb→lt, le→ltb, lt→ltb, ok, err, arith, Bool-cases, inl, inr,
}
use fernq.Prelude.Bytes.{Bytes}
use fernq.Prelude.Bytes.Cursor.{At, At-step, slice-At}
use fernq.Prelude.Bytes.Front.{index-front, read_32-front, slice-front}
use fernq.Prelude.Text.{text}
use fernq.Protocol.{Crc}
use fernq.Protocol.Error.{incomplete_frame}
use fernq.Protocol.Frame.{MessageType, MessageFlags}
use fernq.Protocol.Decoder.{decode_basic}
use fernq.Protocol.Decoder.Accepts.{Accepts, accepts→decode_basic, decode_basic→accepts}
use fernq.Protocol.Decoder.Split.{rejoined, length-current, total_eq}

module _ (crc : Crc) (bytes : Bytes) (t : MessageType) (f : MessageFlags)
    (current remaining : Bytes) where
  Accepts-append :
      (more : Bytes)
      → Accepts crc bytes t f current remaining
      → Accepts crc (bytes ++ more) t f current (remaining ++ more)
  Accepts-append more a =
      let all : ℕ = a.total_frame_len in
      let long : 11 ≤ length bytes = ltb→le _ _ a.has_header in
      let whole : all ≤ length bytes = ltb→le _ _ a.is_complete in
      let total : all ≡ length current = sym (length-current crc bytes t f current remaining a) in
      let longer : length (bytes ++ more) ≡ length bytes + length more = length-append bytes more in
      let parts : bytes ++ more ≡ current ++ (remaining ++ more) =
        ap (λ (b : Bytes). b ++ more) (sym (rejoined crc bytes t f current remaining a))
        ∙ append_assoc current remaining more in
      let start : At (bytes ++ more) 0 (current ++ (remaining ++ more)) = record {
        within = omega arith;
        follows = parts;
      } in
      let behind : At (bytes ++ more) all ((remaining ++ more) ++ []) =
        rw (append-nil (remaining ++ more)) (
          At-step (bytes ++ more) current (remaining ++ more) 0 all start (omega (arith, total))) in
      record {
        frame_length = a.frame_length;
        total_frame_len = all;
        crc_offset = a.crc_offset;
        first = a.first;
        version_byte = a.version_byte;
        type_code = a.type_code;
        flags_byte = a.flags_byte;
        has_header = le→ltb _ _ (omega (arith, longer));
        first_ok = slice-front bytes more 0 4 (omega arith) (omega arith) ∙ a.first_ok;
        magic_ok = a.magic_ok;
        length_ok = read_32-front bytes more 7 (omega arith) ∙ a.length_ok;
        total_ok = a.total_ok;
        is_complete = le→ltb _ _ (omega (arith, longer));
        current_ok = slice-front bytes more 0 all (omega arith) whole ∙ a.current_ok;
        remaining_ok =
            slice-At (bytes ++ more) (remaining ++ more) [] all (length (bytes ++ more)) behind
              (omega (arith, ap length parts, length-append current (remaining ++ more), total));
        offset_ok = a.offset_ok;
        crc_ok = a.crc_ok;
        version_at = index-front bytes more 4 (omega arith) ∙ a.version_at;
        version_ok = a.version_ok;
        type_at = index-front bytes more 5 (omega arith) ∙ a.type_at;
        type_ok = a.type_ok;
        flags_at = index-front bytes more 6 (omega arith) ∙ a.flags_at;
        flags_ok = a.flags_ok;
      }

  -- Bytes that arrive later join the rest and change nothing else.
  pub decode_basic-append :
      (more : Bytes)
      → decode_basic crc bytes ≡ ok (t, f, current, remaining)
      → decode_basic crc (bytes ++ more) ≡ ok (t, f, current, remaining ++ more)
  decode_basic-append more h =
      accepts→decode_basic crc (bytes ++ more) t f current (remaining ++ more)
        (Accepts-append more (decode_basic→accepts crc bytes t f current remaining h))

module _ (crc : Crc) (front back : Bytes) (t : MessageType) (f : MessageFlags)
    (current remaining : Bytes) where
  header_arrived :
      Accepts crc (front ++ back) t f current remaining
      → length front < length current
      → 11 ≤ length front
      → decode_basic crc front
        ≡ err (incomplete_frame (length current) (length front) (text "complete frame"))
  unfolding decode_basic
  header_arrived a cut long =
      let total : a.total_frame_len ≡ length current =
        sym (length-current crc (front ++ back) t f current remaining a) in
      rw (
        le→ltb (length front) 11 long,
        sym (slice-front front back 0 4 (omega arith) (omega arith)) ∙ a.first_ok,
        a.magic_ok,
        sym (read_32-front front back 7 long) ∙ a.length_ok,
        a.total_ok,
        total,
        lt→ltb (length front) (length current) cut,
      )

  -- Of a frame that will be accepted, any proper front is answered with `IncompleteFrame`, which
  -- asks for more bytes than there are and for no more than the frame has.
  pub decode_basic_incomplete :
      decode_basic crc (front ++ back) ≡ ok (t, f, current, remaining)
      → length front < length current
      → (required : ℕ) × (context : Bytes) × (decode_basic crc front
          ≡ err (incomplete_frame required (length front) context))
        × (length front < required)
        × (required ≤ length current)
  unfolding decode_basic
  decode_basic_incomplete h cut =
      let a : Accepts crc (front ++ back) t f current remaining =
        decode_basic→accepts crc (front ++ back) t f current remaining h in
      elim (Bool-cases (ltb (length front) 11)) [
        | inl short ↦ (
          11,
          text "fixed header",
          rw short,
          ltb→lt _ _ short,
          omega (
            arith,
            length-current crc (front ++ back) t f current remaining a,
            total_eq crc (front ++ back) t f current remaining a,
          ),
        )
        | inr long ↦ (
          length current,
          text "complete frame",
          header_arrived a cut (ltb→le _ _ long),
          cut,
          omega arith,
        )
      ]
