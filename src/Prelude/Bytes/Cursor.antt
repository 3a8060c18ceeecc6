-- ===== src/Prelude/Bytes/Cursor.antt =====
-- Reading a byte slice at an offset, by what stands there: `At bytes i rest` says that `rest` is
-- what follows offset `i`.
use fernq.Prelude.{
  ℕ, zero, suc, ◌+◌, ◌-◌, ◌^◌, ◌≤◌, ◌<◌, ◌≡◌, refl, sym, ap, ◌∙◌, [], ◌∷◌, ◌++◌, some, length,
  get_elem?, drop, length-append, length-drop, drop-append, take-append, drop-drop, le→leb, ok,
  arith,
}
use fernq.Prelude.Bytes.{Bytes, index, slice, to_be_16, to_be_32, read_16, read_32}

pub record At (bytes : Bytes) (i : ℕ) (rest : Bytes) : Type 0 where
  pub within : i ≤ length bytes
  pub follows : drop i bytes ≡ rest

pub At-start : (bytes : Bytes) → At bytes 0 bytes
At-start bytes = record { within = omega arith; follows = refl }

-- Past a segment of known length.
pub At-step :
    (bytes seg rest : Bytes) (i j : ℕ)
    → At bytes i (seg ++ rest)
    → j ≡ i + length seg
    → At bytes j rest
At-step bytes seg rest i j at e = record {
  within =
      omega
        (arith, at.within, ap length at.follows, length-drop i bytes, length-append seg rest, e);
  follows = rw e (
      sym (drop-drop i (length seg) bytes)
      ∙ ap (drop (length seg)) at.follows
      ∙ drop-append seg rest);
}

get_elem?-drop :
    (bytes : Bytes) (i x : ℕ) (rest : Bytes) → drop i bytes ≡ x ∷ rest → get_elem? bytes i ≡ some x
get_elem?-drop [] zero x rest e = cc
get_elem?-drop [] (suc i) x rest e = cc
get_elem?-drop (b ∷ bs) zero x rest e = cc
get_elem?-drop (b ∷ bs) (suc i) x rest e = get_elem?-drop bs i x rest e

pub index-At :
    {E : Type 0} (bytes : Bytes) (i x : ℕ) (rest : Bytes)
    → At bytes i (x ∷ rest)
    → index {E = E} bytes i ≡ ok x
unfolding index
index-At bytes i x rest at = rw (get_elem?-drop bytes i x rest at.follows, index)

pub slice-At :
    {E : Type 0} (bytes seg rest : Bytes) (i j : ℕ)
    → At bytes i (seg ++ rest)
    → j ≡ i + length seg
    → slice {E = E} bytes i j ≡ ok seg
unfolding slice
slice-At bytes seg rest i j at e =
    let next : At bytes j rest = At-step bytes seg rest i j at e in
    let d : j - i ≡ length seg = omega (arith, e) in
    rw (le→leb i j (omega (arith, e)), le→leb j (length bytes) next.within, d, at.follows)
      (ap ok (take-append seg rest))

pub At-next :
    (bytes : Bytes) (i x : ℕ) (rest : Bytes) → At bytes i (x ∷ rest) → At bytes (i + 1) rest
At-next bytes i x rest at = At-step bytes (x ∷ []) rest i (i + 1) at (omega arith)

pub read_16-At :
    {E : Type 0} (bytes : Bytes) (i n : ℕ) (rest : Bytes)
    → At bytes i (to_be_16 n ++ rest)
    → n < 2 ^ 16
    → read_16 {E = E} bytes i ≡ ok n
unfolding read_16 to_be_16
read_16-At bytes i n rest at h =
    rw (index-At bytes i _ _ at, index-At bytes (i + 1) _ _ (At-next bytes i _ _ at))
      (ap ok (omega arith))

pub read_32-At :
    {E : Type 0} (bytes : Bytes) (i n : ℕ) (rest : Bytes)
    → At bytes i (to_be_32 n ++ rest)
    → n < 2 ^ 32
    → read_32 {E = E} bytes i ≡ ok n
unfolding read_32 to_be_32
read_32-At bytes i n rest at h =
    rw
      (
        index-At bytes i _ _ at,
        index-At bytes (i + 1) _ _ (At-step bytes (_ ∷ []) _ i (i + 1) at (omega arith)),
        index-At bytes (i + 2) _ _ (At-step bytes (_ ∷ _ ∷ []) _ i (i + 2) at (omega arith)),
        index-At bytes (i + 3) _ _ (At-step bytes (_ ∷ _ ∷ _ ∷ []) _ i (i + 3) at (omega arith)),
      )
      (ap ok (omega arith))
