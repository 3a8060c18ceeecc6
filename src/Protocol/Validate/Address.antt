-- ===== src/Protocol/Validate/Address.antt =====
-- The address that `create_validate` returns.
use fernq.Prelude.{
  ℕ, ◌==◌, ◌≡◌, refl, sym, ap, ◌∙◌, Bool, true, false, not, Option, none, some, List, [], ◌∷◌, ◌++◌,
  ok, panic, take_some, take_ok, pass_if, ok-injective, Bool-cases, inl, inr, subst, if◌then◌else◌,
}
use fernq.Prelude.Bytes.{Bytes}
use fernq.Prelude.Text.{text}
use fernq.Prelude.Search.{find, rfind, starts_with, strip_prefix, take_until, Lacks, find-append}
use fernq.Protocol.{Crc}
use fernq.Protocol.Frame.{ChannelId}
use fernq.Protocol.Encoder.{generate_message_data_stream}
use fernq.Protocol.Error.{ProtocolResult}
use fernq.Protocol.Validate.{
  is_empty, inside_char, check_host_port, check_bracket_port, check_port, validate_ipv4_or_hostname,
  validate_ipv6_address, validate_and_normalize_address, only_frame, ends_address, protocol_prefix,
  validate_stream, create_validate, parse_u16,
}

check_host_port_same :
    (addr out : Bytes) (o : Option (Bytes × Bytes)) → check_host_port addr o ≡ ok out → out ≡ addr
check_host_port_same addr out none h = sym (ok-injective refl h)
check_host_port_same addr out (some (host, port_str)) h =
    take_some (parse_u16 port_str) _ _ h
      λ port e h1. pass_if (is_empty host) _ _ h1 λ filled h2. sym (ok-injective refl h2)

check_bracket_port_same :
    (addr out behind : Bytes) → check_bracket_port addr behind ≡ ok out → out ≡ addr
check_bracket_port_same addr out [] h = sym (ok-injective refl h)
check_bracket_port_same addr out (b ∷ port_str) h = elim (Bool-cases (inside_char port_str)) [
  | inl e ↦
      let e2 : ◌≡◌ {A = ProtocolResult Bytes} panic (ok out) =
        subst (λ t. (if t then panic else check_port addr b port_str) ≡ ok out) e h in
      absurd (cc)
  | inr e ↦
      pass_if (not (b == b':')) _ _
        (subst (λ t. (if t then panic else check_port addr b port_str) ≡ ok out) e h)
        λ colon h1. take_some (parse_u16 port_str) _ _ h1 λ port e h2. sym (ok-injective refl h2)
]

address_same :
    (v6 : Bool) (addr out : Bytes)
    → (if v6 then validate_ipv6_address addr else validate_ipv4_or_hostname addr) ≡ ok out
    → out ≡ addr
unfolding validate_ipv6_address validate_ipv4_or_hostname
address_same true addr out h =
    take_some (find b']' addr) _ _ h
      λ (inside, behind) e h1. check_bracket_port_same addr out behind h1
address_same false addr out h = check_host_port_same addr out (rfind b':' addr) h

-- What a success of `create_validate` says.
pub record IsValidated (crc : Crc) (name : Bytes) (channel_id : ChannelId) (url addr frame : Bytes)
    : Type 0 where
  pub rest : Bytes
  pub prefixed : strip_prefix protocol_prefix url ≡ some rest
  pub address : addr ≡ take_until ends_address rest
  pub filled : is_empty addr ≡ false
  pub sent :
      generate_message_data_stream crc (validate_stream name channel_id) url ≡ ok (frame ∷ [])

pub only_frame_sound :
    (frames : List Bytes) (frame : Bytes) → only_frame frames ≡ ok frame → frames ≡ frame ∷ []
only_frame_sound [] frame h = cc
only_frame_sound (a ∷ []) frame h = ap (λ f. f ∷ []) (ok-injective refl h)
only_frame_sound (a ∷ b ∷ frames) frame h = cc

-- The address is what stands in the URL from behind `fernq://` to the next `/`, `?` or `#`, unchanged
-- and not empty: no default port is added. The frame is the only frame of the URL as a stream.
pub create_validate_sound :
    (crc : Crc) (name : Bytes) (channel_id : ChannelId) (url addr frame : Bytes)
    → create_validate crc name channel_id url ≡ ok (addr, frame)
    → IsValidated crc name channel_id url addr frame
unfolding create_validate validate_and_normalize_address
create_validate_sound crc name channel_id url addr frame h =
    take_some (strip_prefix protocol_prefix url) _ _ h λ rest prefixed h1.
      pass_if (is_empty (take_until ends_address rest)) _ _ h1 λ filled h2.
        take_ok (validate_and_normalize_address (take_until ends_address rest)) _ h2 λ a e1 h3.
          take_ok (generate_message_data_stream crc (validate_stream name channel_id) url) _ h3
            λ frames e2 h4. take_ok (only_frame frames) _ h4 λ f e3 h5.
              let same : a ≡ take_until ends_address rest = address_same _ _ a e1 in
              subst (λ (r : Bytes × Bytes). IsValidated crc name channel_id url r.0 r.1)
                (ok-injective refl h5)
                (record {
                  rest = rest;
                  prefixed = prefixed;
                  address = same;
                  filled = ap is_empty same ∙ filled;
                  sent = e2 ∙ ap ok (only_frame_sound frames f e3);
                })

-- An address in brackets with a character of two or more bytes right behind the bracket makes the
-- check panic, since it cuts the text inside of that character.
pub validate_and_normalize_address_panics :
    (inside rest : Bytes) (b : ℕ)
    → Lacks b']' inside
    → inside_char rest ≡ true
    → validate_and_normalize_address (b'[' ∷ (inside ++ b']' ∷ b ∷ rest)) ≡ panic
unfolding validate_and_normalize_address validate_ipv6_address text starts_with
validate_and_normalize_address_panics inside rest b closed cut =
    rw (find-append b']' (b'[' ∷ inside) (b ∷ rest) (refl, closed), cut)
