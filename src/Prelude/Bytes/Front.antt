-- ===== src/Prelude/Bytes/Front.antt =====
-- Reads that stay in the front of a slice do not see what stands behind it.
use fernq.Prelude.{
  ℕ, zero, suc, ◌+◌, ◌-◌, ◌≤◌, ◌<◌, ◌≡◌, refl, ap, [], ◌∷◌, ◌++◌, length, get_elem?, take, drop,
  length-append, length-drop, ok, arith, le→leb,
}
use fernq.Prelude.Bytes.{Bytes, index, slice, read_16, read_32}

module _ (front back : Bytes) where
  get_elem?_front : (i : ℕ) → i < length front → get_elem? (front ++ back) i ≡ get_elem? front i
  get_elem?_front = go front
    where
      go : (xs : Bytes) (i : ℕ) → i < length xs → get_elem? (xs ++ back) i ≡ get_elem? xs i
      go [] i h = absurd (omega arith)
      go (x ∷ xs) zero h = refl
      go (x ∷ xs) (suc i) h = go xs i (omega arith)

  pub index-front :
      {E : Type 0} (i : ℕ) → i < length front → index {E = E} (front ++ back) i ≡ index front i
  unfolding index
  index-front i h = rw (get_elem?_front i h, index)

  pub read_16-front :
      {E : Type 0} (i : ℕ)
      → i + 2 ≤ length front
      → read_16 {E = E} (front ++ back) i ≡ read_16 front i
  unfolding read_16
  read_16-front i h = rw (index-front i (omega arith), index-front (i + 1) (omega arith))

  pub read_32-front :
      {E : Type 0} (i : ℕ)
      → i + 4 ≤ length front
      → read_32 {E = E} (front ++ back) i ≡ read_32 front i
  unfolding read_32
  read_32-front i h = rw (
    index-front i (omega arith),
    index-front (i + 1) (omega arith),
    index-front (i + 2) (omega arith),
    index-front (i + 3) (omega arith),
  )

take_front : (n : ℕ) (front back : Bytes) → n ≤ length front → take n (front ++ back) ≡ take n front
take_front zero front back h = refl
take_front (suc n) [] back h = absurd (omega arith)
take_front (suc n) (x ∷ xs) back h = ap (◌∷◌ x) (take_front n xs back (omega arith))

drop_front :
    (n : ℕ) (front back : Bytes) → n ≤ length front → drop n (front ++ back) ≡ drop n front ++ back
drop_front zero front back h = refl
drop_front (suc n) [] back h = absurd (omega arith)
drop_front (suc n) (x ∷ xs) back h = drop_front n xs back (omega arith)

pub slice-front :
    {E : Type 0} (front back : Bytes) (a b : ℕ)
    → a ≤ b
    → b ≤ length front
    → slice {E = E} (front ++ back) a b ≡ slice front a b
unfolding slice
slice-front front back a b h k =
    rw
      (
        le→leb a b h,
        le→leb b (length front) k,
        le→leb b (length (front ++ back)) (omega (arith, length-append front back)),
        drop_front a front back (omega arith),
      )
      (ap ok (take_front (b - a) (drop a front) back (omega (arith, length-drop a front))))

-- What a slice that does not panic holds.
pub slice-eq-ok :
    {E : Type 0} (bytes : Bytes) (a b : ℕ) {part : Bytes}
    → slice {E = E} bytes a b ≡ ok part
    → (a ≤ b) × (b ≤ length bytes) × (take (b - a) (drop a bytes) ≡ part)
unfolding slice
slice-eq-ok bytes a b h = ground arith
