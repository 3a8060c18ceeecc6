-- ===== src/Protocol/Decoder/Parsed.antt =====
-- What `parse_message` returns, and that the decoders of its parts agree with it.
use fernq.Prelude.{
  ℕ, ◌+◌, ◌-◌, ◌≤◌, ◌≡◌, ap, ◌∙◌, true, not, length, not-eq-false, length-take, length-drop, drop,
  subst, ltb, ok, arith, ◌==◌, take_ok, pass_if,
}
use fernq.Prelude.Bytes.{Bytes, slice, read_16, read_32}
use fernq.Prelude.Bytes.Front.{slice-eq-ok}
use fernq.Prelude.Text.{text, is_utf8}
use fernq.Protocol.Error.{ProtocolError}
use fernq.Protocol.Frame.{ChannelId, MessageHeader, try_from_slice}
use fernq.Protocol.Decoder.{read_name, get_channel_id, get_message_source_target, parse_message}

abbrev pub IsShortText : Bytes → Type 0
IsShortText name = (1 ≤ length name) × (length name ≤ 128) × (is_utf8 name ≡ true)

read_name_sound :
    (bytes : Bytes) (i j : ℕ) (name_type name : Bytes)
    → read_name bytes i 2 name_type ≡ ok (name, j)
    → IsShortText name
unfolding read_name
read_name_sound bytes i j name_type name h =
    take_ok (read_16 {E = ProtocolError} bytes i) _ h λ n n_ok h1.
      pass_if (ltb 128 n) _ _ h1 λ short h2. pass_if (n == 0) _ _ h2 λ full h3.
        take_ok (slice {E = ProtocolError} bytes (i + 2) (i + 2 + n)) _ h3 λ part part_ok h4.
          pass_if (not (is_utf8 part)) _ _ h4 λ valid h5.
            let same : part ≡ name = cc h5 in
            let (lo, hi, cut) = slice-eq-ok {E = ProtocolError} bytes (i + 2) (i + 2 + n) part_ok in
            let len : length name ≡ n = omega (
              arith,
              ap length (cut ∙ same),
              length-take (i + 2 + n - (i + 2)) (drop (i + 2) bytes),
              length-drop (i + 2) bytes,
            ) in
            (
              ground (arith, len),
              ground (arith, len),
              rw same at (not-eq-false (is_utf8 part) valid),
            )

abbrev header_of : ChannelId → Bytes → Bytes → ℕ → ℕ → MessageHeader
header_of channel source target total offset = record {
  channel_id = channel;
  source = source;
  target = target;
  total_len = total;
  stream_offset = offset;
}

-- A message that is parsed has a source and a target of 1 to 128 bytes of UTF-8, and the decoders
-- that the room uses for the channel and the names give the same answers.
pub parse_message_agrees :
    (bytes : Bytes) (h : MessageHeader) (payload : Bytes)
    → parse_message bytes ≡ ok (h, payload)
    → (get_channel_id bytes ≡ ok h.channel_id)
      × (get_message_source_target bytes ≡ ok (h.source, h.target))
      × IsShortText h.source
      × IsShortText h.target
unfolding parse_message get_channel_id get_message_source_target
parse_message_agrees bytes h payload e = pass_if (ltb (length bytes) 41) _ _ e λ long e1.
    take_ok (slice {E = ProtocolError} bytes 11 27) _ e1 λ id id_ok e2.
      take_ok (try_from_slice id) _ e2 λ channel channel_ok e3.
        take_ok (read_name bytes 27 2 (text "source")) _ e3 λ (source, i) source_ok e4.
          take_ok (read_name bytes i 2 (text "target")) _ e4 λ (target, j) target_ok e5.
            take_ok (read_32 {E = ProtocolError} bytes j) _ e5 λ total total_ok e6.
              take_ok (read_32 {E = ProtocolError} bytes (j + 4)) _ e6 λ offset offset_ok e7.
                take_ok (slice {E = ProtocolError} bytes (j + 4 + 4) (length bytes - 2)) _ e7
                  λ part part_ok e8.
                    let same : header_of channel source target total offset ≡ h = cc e8 in
                    (
                      rw (long, id_ok, channel_ok)
                          (ap ok (ap (λ (x : MessageHeader). x.channel_id) same)),
                      rw (long, source_ok, target_ok)
                          (ap ok (
                            ap {B = Bytes × Bytes} (λ (x : MessageHeader). (x.source, x.target))
                              same)),
                      subst (λ (x : MessageHeader). IsShortText x.source) same
                          (read_name_sound bytes 27 i _ source source_ok),
                      subst (λ (x : MessageHeader). IsShortText x.target) same
                          (read_name_sound bytes i j _ target target_ok),
                    )
