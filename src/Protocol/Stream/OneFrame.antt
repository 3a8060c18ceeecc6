-- ===== src/Protocol/Stream/OneFrame.antt =====
-- `decode_basic` on one frame with other bytes behind it.
use fernq.Prelude.{
  ℕ, ◌+◌, ◌^◌, ◌<◌, ◌≡◌, refl, [], ◌∷◌, ◌++◌, length, drop, append_assoc, append-nil, length-append,
  le→ltb, ==_refl, ok, arith,
}
use fernq.Prelude.Bytes.{
  Bytes, to_be_16, to_be_32, length-to_be_16, length-to_be_32, index, read_32,
}
use fernq.Prelude.Bytes.Cursor.{
  At, At-start, At-step, At-next, index-At, slice-At, read_16-At, read_32-At,
}
use fernq.Protocol.{Crc, magic, version}
use fernq.Protocol.Frame.{
  MessageType, MessageFlags, type_byte, message_flags, validate_magic, validate_version,
}
use fernq.Protocol.Frame.RoundTrip.{message_type-type_byte}
use fernq.Protocol.Encoder.{fixed_header, with_crc}
use fernq.Protocol.Decoder.{decode_basic, check_crc, checked_add, checked_sub}
use fernq.Protocol.Decoder.Accepts.{accepts→decode_basic}

pub length-fixed_header :
    (t : MessageType) (f : MessageFlags) (n : ℕ) → length (fixed_header t f n) ≡ 11
unfolding fixed_header
length-fixed_header t f n = omega (
  arith,
  length-append (to_be_32 magic) (version ∷ type_byte t ∷ f.bits ∷ to_be_32 n),
  length-to_be_32 magic,
  length-to_be_32 n,
)

validate_magic-magic : validate_magic (to_be_32 magic) ≡ ok magic
unfolding validate_magic to_be_32 read_32 index
validate_magic-magic = refl

module _ (crc : Crc) (t : MessageType) (f : MessageFlags) (tail : Bytes) where
  -- A frame of that type and those flags, whose length field counts the tail and the checksum.
  abbrev pub sealed : Bytes
  sealed = with_crc crc (fixed_header t f (length tail + 2) ++ tail)

  pub length-sealed : length sealed ≡ 13 + length tail
  length-sealed = omega (
    arith,
    length-append (fixed_header t f (length tail + 2) ++ tail)
        (to_be_16 (crc.checksum (drop 4 (fixed_header t f (length tail + 2) ++ tail)))),
    length-append (fixed_header t f (length tail + 2)) tail,
    length-fixed_header t f (length tail + 2),
    length-to_be_16 (crc.checksum (drop 4 (fixed_header t f (length tail + 2) ++ tail))),
  )

  -- What the checksum covers, and the checksum.
  abbrev pub covered : Bytes
  covered = version ∷ type_byte t ∷ f.bits ∷ (to_be_32 (length tail + 2) ++ tail)

  abbrev check : Bytes
  check = to_be_16 (crc.checksum covered)

  sealed_parts : sealed ≡ to_be_32 magic ++ (covered ++ check)
  unfolding fixed_header to_be_32
  sealed_parts = refl

  length-covered : length covered ≡ 7 + length tail
  length-covered =
      omega
        (arith, length-append (to_be_32 (length tail + 2)) tail, length-to_be_32 (length tail + 2))

  -- The positions of the parts in the frame with `rest` behind it.
  record Parts (bytes rest : Bytes) : Type 0 where
    at_magic : At bytes 0 (to_be_32 magic ++ (covered ++ (check ++ rest)))
    at_covered : At bytes 4 (covered ++ (check ++ rest))
    at_type :
        At bytes 5
          (type_byte t ∷ f.bits ∷ ((to_be_32 (length tail + 2) ++ tail) ++ (check ++ rest)))
    at_flags : At bytes 6 (f.bits ∷ ((to_be_32 (length tail + 2) ++ tail) ++ (check ++ rest)))
    at_length : At bytes 7 (to_be_32 (length tail + 2) ++ (tail ++ (check ++ rest)))
    at_check : At bytes (11 + length tail) (check ++ rest)

  parts : (rest : Bytes) → Parts (sealed ++ rest) rest
  parts rest =
      let start : At (sealed ++ rest) 0 (to_be_32 magic ++ (covered ++ (check ++ rest))) =
        rw
          (
            sealed_parts,
            append_assoc (to_be_32 magic) (covered ++ check) rest,
            append_assoc covered check rest,
          )
          (At-start _) in
      let four : At (sealed ++ rest) 4 (covered ++ (check ++ rest)) =
        At-step _ (to_be_32 magic) _ 0 4 start (omega (arith, length-to_be_32 magic)) in
      let five : At (sealed ++ rest) 5
          (type_byte t ∷ f.bits ∷ ((to_be_32 (length tail + 2) ++ tail) ++ (check ++ rest))) =
        At-next _ 4 version _ four in
      let six : At (sealed ++ rest) 6
          (f.bits ∷ ((to_be_32 (length tail + 2) ++ tail) ++ (check ++ rest))) =
        At-next _ 5 (type_byte t) _ five in
      record {
        at_magic = start;
        at_covered = four;
        at_type = five;
        at_flags = six;
        at_length =
            rw (append_assoc (to_be_32 (length tail + 2)) tail (check ++ rest)) at
              (At-next _ 6 f.bits _ six);
        at_check = At-step _ covered _ 4 _ four (omega (arith, length-covered));
      }

  length-whole : (rest : Bytes) → length (sealed ++ rest) ≡ 13 + length tail + length rest
  length-whole rest = omega (arith, length-append sealed rest, length-sealed)

  crc_checks : check_crc crc sealed (11 + length tail) ≡ ok tt
  unfolding check_crc
  crc_checks =
      let p : Parts (sealed ++ []) [] = parts [] in
      let p' : Parts sealed [] = rw (append-nil sealed) at p in
      rw (
        slice-At sealed covered (check ++ []) 4 (11 + length tail) p'.at_covered
            (omega (arith, length-covered)),
        read_16-At sealed (11 + length tail) (crc.checksum covered) [] p'.at_check
            (crc.checksum_u16 covered),
        check_crc,
        ==_refl (crc.checksum covered),
      )

  -- `decode_basic` gives back the type and the flags of the frame, the frame itself, and whatever
  -- follows it.
  pub decode_basic-sealed :
      (rest : Bytes)
      → message_flags f.bits ≡ ok f
      → length tail + 2 < 2 ^ 32
      → decode_basic crc (sealed ++ rest) ≡ ok (t, f, sealed, rest)
  decode_basic-sealed rest flags_ok small =
      let p : Parts (sealed ++ rest) rest = parts rest in
      let whole : At (sealed ++ rest) 0 (sealed ++ rest) = At-start (sealed ++ rest) in
      let all : ℕ = 13 + length tail in
      let behind : At (sealed ++ rest) all rest =
        At-step _ sealed rest 0 all whole (omega (arith, length-sealed)) in
      let behind' : At (sealed ++ rest) all (rest ++ []) = rw (append-nil rest) behind in
      accepts→decode_basic crc (sealed ++ rest) t f sealed rest (record {
        frame_length = length tail + 2;
        total_frame_len = all;
        crc_offset = 11 + length tail;
        first = to_be_32 magic;
        version_byte = version;
        type_code = type_byte t;
        flags_byte = f.bits;
        has_header = le→ltb _ _ (omega (arith, length-whole rest));
        first_ok =
            slice-At _ (to_be_32 magic) _ 0 4 p.at_magic (omega (arith, length-to_be_32 magic));
        magic_ok = validate_magic-magic;
        length_ok = read_32-At _ 7 (length tail + 2) _ p.at_length small;
        total_ok = unfold checked_add in ground arith;
        is_complete = le→ltb _ _ (omega (arith, length-whole rest));
        current_ok = slice-At _ sealed rest 0 all whole (omega (arith, length-sealed));
        remaining_ok = slice-At _ rest [] all _ behind' (omega (arith, length-whole rest));
        offset_ok = unfold checked_sub in ground arith;
        crc_ok = crc_checks;
        version_at = index-At _ 4 version _ p.at_covered;
        version_ok = unfold validate_version in refl;
        type_at = index-At _ 5 (type_byte t) _ p.at_type;
        type_ok = message_type-type_byte t;
        flags_at = index-At _ 6 f.bits _ p.at_flags;
        flags_ok = flags_ok;
      })

  -- The tail stands behind the eleven bytes of the fixed header.
  pub tail-At : At sealed 11 (tail ++ to_be_16 (crc.checksum covered))
  tail-At =
      let p : Parts (sealed ++ []) [] = parts [] in
      let at : At sealed 7 (to_be_32 (length tail + 2) ++ (tail ++ check)) =
        rw (append-nil sealed, append-nil check) at p.at_length in
      At-step sealed (to_be_32 (length tail + 2)) (tail ++ check) 7 11 at
        (omega (arith, length-to_be_32 (length tail + 2)))
