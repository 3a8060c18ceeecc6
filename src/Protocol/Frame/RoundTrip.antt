-- ===== src/Protocol/Frame/RoundTrip.antt =====
-- The type byte and the flags byte of a frame, read back.
use fernq.Prelude.{ℕ, ◌%◌, ◌<◌, ◌≡◌, refl, ◌≢◌, Bool, true, false, not, ◌||◌, ok, err, ◌==◌, arith}
use Prim.Native.Nat.{bit_and}
use fernq.Prelude.Bits.{passes_below, passes_below-lt, bit_and_mask}
use fernq.Protocol.Error.{invalid_flags}
use fernq.Protocol.Frame.{
  MessageType, header, body, ping, pong, type_byte, message_type, MessageFlags, new_flags,
  end_stream, end_channel, is_response, is_valid, message_flags, flag_triple, reserved_mask,
}

-- Every message type is read back from its byte.
pub message_type-type_byte : (t : MessageType) → message_type (type_byte t) ≡ ok t
unfolding message_type type_byte
message_type-type_byte header = refl
message_type-type_byte body = refl
message_type-type_byte ping = refl
message_type-type_byte pong = refl

-- A byte that is read as a message type is the byte of that type.
pub type_byte-message_type : (v : ℕ) (t : MessageType) → message_type v ≡ ok t → type_byte t ≡ v
unfolding message_type type_byte
type_byte-message_type v header e = ground arith
type_byte-message_type v body e = ground arith
type_byte-message_type v ping e = ground arith
type_byte-message_type v pong e = ground arith

pub type_byte-lt : (t : MessageType) → type_byte t < 256
unfolding type_byte
type_byte-lt header = omega arith
type_byte-lt body = omega arith
type_byte-lt ping = omega arith
type_byte-lt pong = omega arith

-- Flags made of three answers are valid as a byte and give the three answers back.
pub message_flags-new_flags :
    (a b c : Bool)
    → (message_flags (new_flags a b c).bits ≡ ok (new_flags a b c))
      × (flag_triple (new_flags a b c) ≡ (a, b, c))
unfolding message_flags new_flags flag_triple
message_flags-new_flags true true true = (refl, refl)
message_flags-new_flags true true false = (refl, refl)
message_flags-new_flags true false true = (refl, refl)
message_flags-new_flags true false false = (refl, refl)
message_flags-new_flags false true true = (refl, refl)
message_flags-new_flags false true false = (refl, refl)
message_flags-new_flags false false true = (refl, refl)
message_flags-new_flags false false false = (refl, refl)

pub new_flags-lt : (a b c : Bool) → (new_flags a b c).bits < 256
unfolding new_flags
new_flags-lt true true true = omega arith
new_flags-lt true true false = omega arith
new_flags-lt true false true = omega arith
new_flags-lt true false false = omega arith
new_flags-lt false true true = omega arith
new_flags-lt false true false = omega arith
new_flags-lt false false true = omega arith
new_flags-lt false false false = omega arith

-- The flags with their own three answers are the same byte, if the reserved bits are 0.
is_canonical : ℕ → Bool
unfolding new_flags end_stream end_channel is_response is_valid
is_canonical v =
    let f : MessageFlags = record { bits = v } in
    not (is_valid f) || (new_flags (end_stream f) (end_channel f) (is_response f)).bits == v

canonical_table : passes_below is_canonical 256 ≡ true
unfolding is_canonical passes_below
canonical_table = refl

-- A byte is accepted exactly when its five low bits are 0, and then it stands for the three answers
-- that it gives; any other byte is refused with `InvalidFlags`.
pub message_flags_cases :
    (v : ℕ)
    → v < 256
    → (v % 32 ≡ 0
        → (f : MessageFlags) × (message_flags v ≡ ok f)
          × (f.bits ≡ v)
          × (new_flags (end_stream f) (end_channel f) (is_response f) ≡ f))
      × (v % 32 ≢ 0 → message_flags v ≡ err (invalid_flags v))
unfolding message_flags is_canonical is_valid
message_flags_cases v h = (
  λ z.
      let free : (bit_and v reserved_mask == 0) ≡ true = ground (arith, bit_and_mask 5 v) in
      (record { bits = v }, rw free, refl, same free),
  λ n. ground (arith, bit_and_mask 5 v),
)
  where
    same :
        (bit_and v reserved_mask == 0) ≡ true
        → new_flags
            (end_stream (record { bits = v }))
            (end_channel (record { bits = v }))
            (is_response (record { bits = v }))
          ≡ record { bits = v }
    same free =
        let row : is_canonical v ≡ true = passes_below-lt is_canonical 256 v canonical_table h in
        ground (arith, free)
