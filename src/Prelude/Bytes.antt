-- ===== src/Prelude/Bytes.antt =====
-- Byte slices as lists of numbers, and what Rust's standard library does with them: indexing and
-- slicing, which panic out of range, and big-endian integers.
pub mod Cursor
pub mod Bounds
pub mod Front
use fernq.Prelude.{
  ℕ, suc, ◌+◌, ◌-◌, ◌*◌, ◌/◌, ◌%◌, ◌^◌, ◌<◌, ◌≡◌, List, [], ◌∷◌, ◌++◌, ◌&&◌, Option, none, some,
  length, get_elem?, take, drop, leb, if◌then◌else◌, Result, ok, panic, ◌>>=◌, arith,
}

abbrev pub Bytes : Type 0
Bytes = List ℕ

abbrev pub IsByte : ℕ → Type 0
IsByte b = b < 256

-- `bytes[i]`.
unfoldable pub index : {E : Type 0} → Bytes → ℕ → Result E ℕ
index bytes i = elim (get_elem? bytes i) [ some b ↦ ok b | none ↦ panic ]

-- `&bytes[a..b]`.
unfoldable pub slice : {E : Type 0} → Bytes → ℕ → ℕ → Result E Bytes
slice bytes a b =
    if leb a b && leb b (length bytes) then ok (take (b - a) (drop a bytes)) else panic

-- `n as u16` and `n as u32`.
abbrev pub as_u16 : ℕ → ℕ
as_u16 n = n % 2 ^ 16

abbrev pub as_u32 : ℕ → ℕ
as_u32 n = n % 2 ^ 32

-- `u16::to_be_bytes`, `u32::to_be_bytes` and their inverses.
unfoldable pub to_be_16 : ℕ → Bytes
to_be_16 n = n / 256 % 256 ∷ n % 256 ∷ []

unfoldable pub to_be_32 : ℕ → Bytes
to_be_32 n = n / 16777216 % 256 ∷ n / 65536 % 256 ∷ n / 256 % 256 ∷ n % 256 ∷ []

abbrev pub from_be_16 : ℕ → ℕ → ℕ
from_be_16 a b = a * 256 + b

abbrev pub from_be_32 : ℕ → ℕ → ℕ → ℕ → ℕ
from_be_32 a b c d = ((a * 256 + b) * 256 + c) * 256 + d

-- `u16::from_be_bytes([bytes[i], bytes[i + 1]])`, and the same for four bytes.
unfoldable pub read_16 : {E : Type 0} → Bytes → ℕ → Result E ℕ
read_16 bytes i = do a ← index bytes i; b ← index bytes (i + 1); ok (from_be_16 a b)

unfoldable pub read_32 : {E : Type 0} → Bytes → ℕ → Result E ℕ
read_32 bytes i = do
  a ← index bytes i
  b ← index bytes (i + 1)
  c ← index bytes (i + 2)
  d ← index bytes (i + 3)
  ok (from_be_32 a b c d)

pub length-to_be_16 : (n : ℕ) → length (to_be_16 n) ≡ 2
unfolding to_be_16
length-to_be_16 n = omega arith

pub length-to_be_32 : (n : ℕ) → length (to_be_32 n) ≡ 4
unfolding to_be_32
length-to_be_32 n = omega arith
