-- ===== src/Prelude/Bytes/Bounds.antt =====
-- Within bounds nothing panics, and the integers that are read fit their width.
use fernq.Prelude.{
  ℕ, zero, suc, ◌+◌, ◌-◌, ◌*◌, ◌^◌, ◌≤◌, ◌<◌, ◌≡◌, refl, [], ◌∷◌, some, length, get_elem?, take,
  drop, le→leb, ok, arith, All, length-take, length-drop,
}
use fernq.Prelude.Bytes.{Bytes, IsByte, index, slice, read_16, read_32}

get_elem?_lt :
    (bytes : Bytes) (i : ℕ)
    → i < length bytes
    → All IsByte bytes
    → (b : ℕ) × (get_elem? bytes i ≡ some b) × (b < 256)
get_elem?_lt [] i h a = absurd (omega arith)
get_elem?_lt (b ∷ bs) zero h a = (b, refl, a.0)
get_elem?_lt (b ∷ bs) (suc i) h a = get_elem?_lt bs i (omega arith) a.1

pub index_lt :
    {E : Type 0} (bytes : Bytes) (i : ℕ)
    → i < length bytes
    → All IsByte bytes
    → (b : ℕ) × (index {E = E} bytes i ≡ ok b) × (b < 256)
unfolding index
index_lt bytes i h a = let (b, e, l) = get_elem?_lt bytes i h a in (b, rw (e, index), l)

pub slice_le :
    {E : Type 0} (bytes : Bytes) (i j : ℕ)
    → i ≤ j
    → j ≤ length bytes
    → (slice {E = E} bytes i j ≡ ok (take (j - i) (drop i bytes)))
      × (length (take (j - i) (drop i bytes)) ≡ j - i)
unfolding slice
slice_le bytes i j h k = (
  rw (le→leb i j h, le→leb j (length bytes) k),
  omega (arith, length-take (j - i) (drop i bytes), length-drop i bytes),
)

pub read_16_lt :
    {E : Type 0} (bytes : Bytes) (i : ℕ)
    → i + 2 ≤ length bytes
    → All IsByte bytes
    → (n : ℕ) × (read_16 {E = E} bytes i ≡ ok n) × (n < 2 ^ 16)
unfolding read_16
read_16_lt {E} bytes i h all =
    let (a, ea, la) = index_lt {E = E} bytes i (omega arith) all in
    let (b, eb, lb) = index_lt {E = E} bytes (i + 1) (omega arith) all in
    (a * 256 + b, rw (ea, eb, read_16), omega arith)

pub read_32_lt :
    {E : Type 0} (bytes : Bytes) (i : ℕ)
    → i + 4 ≤ length bytes
    → All IsByte bytes
    → (n : ℕ) × (read_32 {E = E} bytes i ≡ ok n) × (n < 2 ^ 32)
unfolding read_32
read_32_lt {E} bytes i h all =
    let (a, ea, la) = index_lt {E = E} bytes i (omega arith) all in
    let (b, eb, lb) = index_lt {E = E} bytes (i + 1) (omega arith) all in
    let (c, ec, lc) = index_lt {E = E} bytes (i + 2) (omega arith) all in
    let (d, ed, ld) = index_lt {E = E} bytes (i + 3) (omega arith) all in
    (((a * 256 + b) * 256 + c) * 256 + d, rw (ea, eb, ec, ed, read_32), omega arith)
