-- ===== src/Protocol/Stream/Errors.antt =====
-- When `generate_message_data_stream` succeeds.
use fernq.Prelude.{
  ℕ, suc, ◌≤◌, ◌≡◌, ◌⊎◌, ◌↔◌, inl, inr, List, [], map, length, ltb, ◌==◌, ok, err, arith,
  Bool-cases, ltb→lt, ltb→le, le→ltb, true, false, ==_iff,
}
use fernq.Prelude.Bytes.{Bytes}
use fernq.Prelude.Bytes.Cursor.{At-start}
use fernq.Prelude.Text.{text}
use fernq.Protocol.{Crc, max_name_length, max_stream_length}
use fernq.Protocol.Error.{ProtocolError, empty_name, name_too_long, stream_too_long}
use fernq.Protocol.Encoder.{Stream, max_payload, generate_message_data_stream}
use fernq.Protocol.Stream.Pieces.{piece_frame, pieces_within, stream_loop-pieces}

-- The lengths that the protocol allows.
pub record Fits (s : Stream) (bytes : Bytes) : Type 0 where
  pub source_filled : 1 ≤ length s.source_name
  pub source_fits : length s.source_name ≤ max_name_length
  pub target_filled : 1 ≤ length s.target_name
  pub target_fits : length s.target_name ≤ max_name_length
  pub stream_fits : length bytes ≤ max_stream_length

unfit : {n : ℕ} {A : Type 0} → ((n == 0) ≡ true) ↔ (n ≡ 0) → (n == 0) ≡ true → 1 ≤ n → A
unfit zero_iff e h = absurd (omega (arith, zero_iff.0 e))

filled : (n : ℕ) → (n == 0) ≡ false → 1 ≤ n
filled n e = ground arith

generated :
    (crc : Crc) (s : Stream) (bytes : Bytes)
    → Fits s bytes
    → (frames : List Bytes) × (generate_message_data_stream crc s bytes ≡ ok frames)
unfolding generate_message_data_stream
generated crc s bytes z =
    let s1 : (length s.source_name == 0) ≡ false = ground (arith, z.source_filled) in
    let t1 : (length s.target_name == 0) ≡ false = ground (arith, z.target_filled) in
    let m1 : (max_payload s == 0) ≡ false = ground (arith, z.source_fits, z.target_fits) in
    (
      map (piece_frame crc s (length bytes))
          (pieces_within (suc (length bytes)) (max_payload s) 0 bytes),
      rw (
        s1,
        t1,
        le→ltb 128 (length s.source_name) z.source_fits,
        le→ltb 128 (length s.target_name) z.target_fits,
        m1,
        le→ltb max_stream_length (length bytes) z.stream_fits,
        stream_loop-pieces crc s bytes (max_payload s) (omega (arith, z.source_fits, z.target_fits))
            (suc (length bytes)) 0 bytes [] (At-start bytes) (omega arith),
      ),
    )

-- On every input frames are generated exactly when the two names have 1 to 128 bytes and the data at
-- most 8 MiB, and there is an error otherwise: never a panic, and the loop always ends.
pub generate_message_data_stream_cases :
    (crc : Crc) (s : Stream) (bytes : Bytes)
    → (Fits s bytes
        × (frames : List Bytes) × (generate_message_data_stream crc s bytes ≡ ok frames))
      ⊎ (¬ Fits s bytes × (e : ProtocolError) × (generate_message_data_stream crc s bytes ≡ err e))
unfolding generate_message_data_stream
generate_message_data_stream_cases crc s bytes = elim (Bool-cases (length s.source_name == 0)) [
  | inl e1 ↦ inr (λ z. unfit (==_iff _ 0) e1 z.source_filled, empty_name (text "source"), rw e1)
  | inr e1 ↦ elim (Bool-cases (length s.target_name == 0)) [
    | inl e2 ↦
        inr (λ z. unfit (==_iff _ 0) e2 z.target_filled, empty_name (text "target"), rw (e1, e2))
    | inr e2 ↦ elim (Bool-cases (ltb 128 (length s.source_name))) [
      | inl e3 ↦ inr (
        λ z. absurd (omega (arith, ltb→lt 128 (length s.source_name) e3, z.source_fits)),
        name_too_long (text "source") (length s.source_name) 128,
        rw (e1, e2, e3),
      )
      | inr e3 ↦ elim (Bool-cases (ltb 128 (length s.target_name))) [
        | inl e4 ↦ inr (
          λ z. absurd (omega (arith, ltb→lt 128 (length s.target_name) e4, z.target_fits)),
          name_too_long (text "target") (length s.target_name) 128,
          rw (e1, e2, e3, e4),
        )
        | inr e4 ↦ elim (Bool-cases (ltb max_stream_length (length bytes))) [
          | inl e5 ↦ inr (
            λ z. absurd (omega (arith, ltb→lt max_stream_length (length bytes) e5, z.stream_fits)),
            stream_too_long (length bytes) max_stream_length,
            rw (e1, e2, e3, e4, room_left e3 e4, e5),
          )
          | inr e5 ↦
              inl
                let fits : Fits s bytes = record {
                  source_filled = filled _ e1;
                  source_fits = ltb→le 128 (length s.source_name) e3;
                  target_filled = filled _ e2;
                  target_fits = ltb→le 128 (length s.target_name) e4;
                  stream_fits = ltb→le max_stream_length (length bytes) e5;
                } in
                  let (frames, made) = generated crc s bytes fits in (fits, frames, made)
        ]
      ]
    ]
  ]
]
  where
    room_left :
        ltb 128 (length s.source_name) ≡ false
        → ltb 128 (length s.target_name) ≡ false
        → (max_payload s == 0) ≡ false
    room_left e3 e4 = ground (arith, e3, e4)
