-- ===== src/Protocol/Stream/Single.antt =====
-- A stream of one frame.
use fernq.Prelude.{
  ◌≡◌, refl, sym, ap, ◌∙◌, subst, List, [], ◌∷◌, ◌++◌, append-nil, ok, take_ok, ok-injective,
}
use fernq.Prelude.Bytes.{Bytes}
use fernq.Protocol.{Crc}
use fernq.Protocol.Decoder.{decode_basic, parse_message}
use fernq.Protocol.Decoder.Split.{decode_basic_sound}
use fernq.Protocol.Stream.Receive.{Received, receive}

head_eq : {A : Type 0} {x y : A} {xs ys : List A} → x ∷ xs ≡ y ∷ ys → x ≡ y
head_eq h = cc

tail_eq : {A : Type 0} {x y : A} {xs ys : List A} → x ∷ xs ≡ y ∷ ys → xs ≡ ys
tail_eq h = cc

receive_nothing : (crc : Crc) (rest : Bytes) → receive crc 1 rest ≡ ok [] → rest ≡ []
unfolding receive
receive_nothing crc [] h = refl
receive_nothing crc (b ∷ bs) h =
    take_ok (decode_basic crc (b ∷ bs)) _ h
      λ (t, f, frame, rest) e1 h1. take_ok (parse_message frame) _ h1 λ (m, p) e2 h2. absurd (cc)

-- Bytes that are read as a single message are one frame, with that message.
pub receive_single :
    (crc : Crc) (frame : Bytes) (r : Received)
    → receive crc 2 frame ≡ ok (r ∷ [])
    → (decode_basic crc frame ≡ ok (r.message_type, r.flags, frame, []))
      × (parse_message frame ≡ ok (r.header, r.payload))
unfolding receive
receive_single crc [] r h = absurd (cc)
receive_single crc (b ∷ bs) r h =
    take_ok (decode_basic crc (b ∷ bs)) _ h λ (t, f, frame, rest) e1 h1.
      take_ok (parse_message frame) _ h1 λ (m, p) e2 h2.
        take_ok (receive crc 1 rest) _ h2 λ later e3 h3.
          let made : List Received =
            record { message_type = t; flags = f; header = m; payload = p } ∷ later in
          let all : ◌≡◌ {A = List Received} made (r ∷ []) = ok-injective refl h3 in
          let none_left : rest ≡ [] = receive_nothing crc rest (e3 ∙ ap ok (tail_eq all)) in
          let split : frame ++ rest ≡ b ∷ bs =
            (decode_basic_sound crc (b ∷ bs) t f frame rest e1).0 in
          let whole : frame ≡ b ∷ bs =
            sym (append-nil frame) ∙ ap (λ x. frame ++ x) (sym none_left) ∙ split in
          subst
            (λ (x : Received).
              (decode_basic crc (b ∷ bs) ≡ ok (x.message_type, x.flags, b ∷ bs, []))
              × (parse_message (b ∷ bs) ≡ ok (x.header, x.payload)))
            (head_eq all)
            (
              e1 ∙ ap (λ x. ok (t, f, x, rest)) whole ∙ ap (λ x. ok (t, f, b ∷ bs, x)) none_left,
              ap parse_message (sym whole) ∙ e2,
            )
