-- ===== src/Prelude/Bits.antt =====
-- `bit_and` with a mask of low ones, for every width, and checks over a small range by evaluation.
use Prim.Native.Nat.{digits, bit_and, bit_and-bitwise}
use fernq.Prelude.{
  ℕ, zero, suc, ◌+◌, ◌-◌, ◌*◌, ◌/◌, ◌%◌, ◌^◌, ◌≤◌, ◌<◌, min, ◌≡◌, ap, ◌∙◌, Bool, true, false, arith,
}
use native.Mathlib.Nat.{pow-suc, div-add-mod, div-div-eq-div-mul}

-- Every number below `n` passes the test.
module _ (test : ℕ → Bool) where
  unfoldable pub passes_below : ℕ → Bool
  passes_below zero = true
  passes_below (suc n) = elim (test n) [ true ↦ passes_below n | false ↦ false ]

  pub passes_below-lt : (n x : ℕ) → passes_below n ≡ true → x < n → test x ≡ true
  unfolding passes_below
  passes_below-lt zero x h lt = absurd (omega arith)
  passes_below-lt (suc n) x h lt = ground (arith, passes_below-lt n x)

pub pow_pos : (k : ℕ) → 0 < 2 ^ k
pow_pos zero = omega arith
pow_pos (suc k) = omega (arith, pow-suc 2 k, pow_pos k)

-- The remainder by `2 * p` from the lowest digit and the remainder of the half by `p`.
mod-double : (a p : ℕ) → a / 2 % p * 2 + a % 2 ≡ a % (2 * p)
mod-double a p = omega (
  arith,
  div-add-mod (a / 2) p,
  div-add-mod a (2 * p),
  ap (λ (q : ℕ). p * q) (div-div-eq-div-mul a 2 p),
)

half_mask : (k : ℕ) → (2 ^ suc k - 1) / 2 ≡ 2 ^ k - 1
half_mask k = omega (arith, pow-suc 2 k, pow_pos k)

odd_mask : (k : ℕ) → (2 ^ suc k - 1) % 2 ≡ 1
odd_mask k = omega (arith, pow-suc 2 k, pow_pos k)

-- The digits of `a` under a mask of `k` ones, counted down from any `n` that is large enough.
masked_digits : (n k a : ℕ) → a ≤ n → digits (λ b. zero) min n a (2 ^ k - 1) ≡ a % 2 ^ k
masked_digits zero k zero h = omega (arith, pow_pos k)
masked_digits zero k (suc a) h = absurd (omega arith)
masked_digits (suc n) k zero h = omega (arith, pow_pos k)
masked_digits (suc n) zero (suc a) h = omega (arith, masked_digits n zero (suc a / 2) (omega arith))
masked_digits (suc n) (suc k) (suc a) h =
    let low : min (suc a % 2) 1 ≡ suc a % 2 = omega arith in
    let double : 2 ^ suc k ≡ 2 * 2 ^ k = omega (arith, pow-suc 2 k) in
    rw (half_mask k, odd_mask k, masked_digits n k (suc a / 2) (omega arith), low, double)
      (mod-double (suc a) (2 ^ k))

pub bit_and_mask : (k a : ℕ) → bit_and a (2 ^ k - 1) ≡ a % 2 ^ k
bit_and_mask k a = bit_and-bitwise a (2 ^ k - 1) ∙ masked_digits a k a (omega arith)
