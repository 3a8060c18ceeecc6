-- ===== src/Prelude/Text.antt =====
-- Rust strings as their UTF-8 bytes: literals, `str::from_utf8`, and `Display` of a number.
use Prim.Native.Char.{code}
use fernq.Prelude.{
  ℕ, zero, suc, ◌+◌, ◌/◌, ◌%◌, ◌<◌, ◌≡◌, refl, String, Bool, true, false, ◌&&◌, Option, none, some,
  [], ◌∷◌, ◌++◌, All, ltb, leb, ◌==◌, if◌then◌else◌, arith,
}
use fernq.Prelude.Bytes.{Bytes}

-- The bytes of one character.
encode_char : ℕ → Bytes
encode_char c =
    if ltb c 0x80
    then c ∷ []
    else if ltb c 0x800
    then (0xc0 + c / 64) ∷ (0x80 + c % 64) ∷ []
    else if ltb c 0x10000
    then (0xe0 + c / 4096) ∷ (0x80 + c / 64 % 64) ∷ (0x80 + c % 64) ∷ []
    else (0xf0 + c / 262144) ∷ (0x80 + c / 4096 % 64) ∷ (0x80 + c / 64 % 64) ∷ (0x80 + c % 64) ∷ []

-- The bytes of a string literal.
unfoldable pub text : String → Bytes
unfolding encode_char
text String.[] = []
text (String.◌∷◌ c s) = encode_char (code c) ++ text s

-- What a lead byte asks for: how many bytes follow it, and the range of the first of them.
lead_byte : ℕ → Option (ℕ × ℕ × ℕ)
lead_byte b =
    if ltb b 0x80
    then some (0, 0x80, 0xbf)
    else if ltb b 0xc2
    then none
    else if ltb b 0xe0
    then some (1, 0x80, 0xbf)
    else if b == 0xe0
    then some (2, 0xa0, 0xbf)
    else if b == 0xed
    then some (2, 0x80, 0x9f)
    else if ltb b 0xf0
    then some (2, 0x80, 0xbf)
    else if b == 0xf0
    then some (3, 0x90, 0xbf)
    else if ltb b 0xf4
    then some (3, 0x80, 0xbf)
    else if b == 0xf4
    then some (3, 0x80, 0x8f)
    else none

-- `need` bytes of the present character are missing, the next of them between `lo` and `hi`.
utf8_from : ℕ → ℕ → ℕ → Bytes → Bool
utf8_from zero lo hi [] = true
utf8_from (suc need) lo hi [] = false
utf8_from zero lo hi (b ∷ bs) = elim (lead_byte b) [
  | none ↦ false
  | some (need, lo', hi') ↦ utf8_from need lo' hi' bs
]
utf8_from (suc need) lo hi (b ∷ bs) = leb lo b && leb b hi && utf8_from need 0x80 0xbf bs

-- `str::from_utf8(bytes).is_ok()`.
unfoldable pub is_utf8 : Bytes → Bool
unfolding utf8_from lead_byte
is_utf8 bytes = utf8_from 0 0x80 0xbf bytes

decimal_fuel : ℕ → ℕ → Bytes
decimal_fuel zero n = []
decimal_fuel (suc fuel) n =
    let high = decimal_fuel fuel (n / 10) in
    if ltb n 10 then (b'0' + n) ∷ [] else high ++ (b'0' + n % 10) ∷ []

-- `format!("{}", n)`. A number has no more digits than its value.
unfoldable pub decimal : ℕ → Bytes
unfolding decimal_fuel
decimal n = decimal_fuel (suc n) n

ascii-utf8_from : (bytes : Bytes) → All (λ b. b < 128) bytes → utf8_from 0 0x80 0xbf bytes ≡ true
unfolding utf8_from lead_byte
ascii-utf8_from [] h = refl
ascii-utf8_from (b ∷ bs) h = ground (arith, ascii-utf8_from bs h.1)

pub ascii-is_utf8 : (bytes : Bytes) → All (λ b. b < 128) bytes → is_utf8 bytes ≡ true
unfolding is_utf8
ascii-is_utf8 = ascii-utf8_from

-- `==` on strings.
unfoldable pub same : Bytes → Bytes → Bool
same [] [] = true
same [] (c ∷ cs) = false
same (b ∷ bs) [] = false
same (b ∷ bs) (c ∷ cs) = b == c && same bs cs

pub same-eq : (a b : Bytes) → same a b ≡ true → a ≡ b
unfolding same
same-eq [] [] h = refl
same-eq [] (c ∷ cs) h = cc
same-eq (b ∷ bs) [] h = cc
same-eq (b ∷ bs) (c ∷ cs) h = ground (arith, same-eq bs cs)

pub same_refl : (a : Bytes) → same a a ≡ true
unfolding same
same_refl [] = refl
same_refl (b ∷ bs) = ground (arith, same_refl bs)
