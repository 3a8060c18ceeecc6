-- ===== src/Protocol/Frame/Assign.antt =====
-- The worker that a channel is assigned to.

use fernq.Prelude.{
  ℕ, zero, suc, ◌+◌, ◌*◌, ◌%◌, ◌^◌, ◌<◌, ◌≡◌, ap, fun_ext, ◌↔◌, ◌⊎◌, inl, inr, true, false, ok, err,
  ◌==◌, ==_iff, Bool-cases, arith, ◌>>=◌,
}
use fernq.Prelude.Bits.{bit_and_mask, pow_pos}
use fernq.Prelude.Bytes.Bounds.{read_32_lt}
use fernq.Protocol.Error.{ProtocolError, invalid_target_count}
use fernq.Protocol.Frame.{
  ChannelId, IsChannelId, hash_u64, assign_target, is_power_of_two, power_among, assign_target_fast,
  not_a_power,
}
use native.Mathlib.Nat.{mod-lt}

power_among→pow : (j n : ℕ) → power_among j n ≡ true → (k : ℕ) × (k < j) × (n ≡ 2 ^ k)
unfolding power_among
power_among→pow zero n h = cc
power_among→pow (suc j) n h = elim (Bool-cases (n == 2 ^ j)) [
  | inl e ↦ (j, omega arith, (==_iff n (2 ^ j)).0 e)
  | inr e ↦ let (k, l, p) = power_among→pow j n (rw e at h) in (k, omega arith, p)
]

pow→power_among : (j k : ℕ) → k < j → power_among j (2 ^ k) ≡ true
unfolding power_among
pow→power_among zero k l = absurd (omega arith)
pow→power_among (suc j) k l = ground (arith, pow→power_among j k)

-- `is_power_of_two` says yes to the 64 powers of two that a `usize` holds, and to nothing else.
pub is_power_of_two_iff : (n : ℕ) → (is_power_of_two n ≡ true) ↔ ((k : ℕ) × (k < 64) × (n ≡ 2 ^ k))
unfolding is_power_of_two
is_power_of_two_iff n = (power_among→pow 64 n, λ (k, l, e). rw e (pow→power_among 64 k l))

-- The fast assignment is the remainder, for every channel and every power of two.
pub assign_target_fast-assign_target :
    (id : ChannelId) (n : ℕ)
    → is_power_of_two n ≡ true
    → assign_target_fast id n ≡ assign_target id n
unfolding assign_target_fast assign_target
assign_target_fast-assign_target id n p =
    let (k, l, e) = (is_power_of_two_iff n).0 p in
    let pos : 0 < n = omega (arith, pow_pos k, e) in
    let some_targets : (n == 0) ≡ false = ground arith in
    rw (p, some_targets)
      (ap (λ f. hash_u64 id >>= f) (fun_ext (λ h. ap ok (rw e (bit_and_mask k h)))))

hash_u64-ok : (id : ChannelId) → IsChannelId id → (h : ℕ) × (hash_u64 id ≡ ok h) × (h < 2 ^ 64)
unfolding hash_u64
hash_u64-ok id v =
    let (a, ea, la) =
      read_32_lt {E = ProtocolError} id.bytes 8 (omega (arith, v.sixteen)) v.are_bytes in
    let (b, eb, lb) =
      read_32_lt {E = ProtocolError} id.bytes 12 (omega (arith, v.sixteen)) v.are_bytes in
    (a * 2 ^ 32 + b, rw (ea, eb, hash_u64), omega arith)

-- A channel has a worker below the number of workers, whenever that number is a power of two; any
-- other number of workers is refused as an invalid count.
pub assign_target_fast_cases :
    (id : ChannelId) (n : ℕ)
    → IsChannelId id
    → ((is_power_of_two n ≡ true) × (w : ℕ) × (assign_target_fast id n ≡ ok w) × (w < n))
      ⊎ ((is_power_of_two n ≡ false)
          × (assign_target_fast id n ≡ err (invalid_target_count n not_a_power)))
unfolding assign_target_fast
assign_target_fast_cases id n v = elim (Bool-cases (is_power_of_two n)) [
  | inl p ↦
      let (h, e, l) = hash_u64-ok id v in
      let (k, lk, ek) = (is_power_of_two_iff n).0 p in
      inl (
        p,
        h % n,
        rw (p, e) (ap ok (rw ek (bit_and_mask k h))),
        mod-lt h (omega (arith, pow_pos k, ek)),
      )
  | inr p ↦ inr (p, rw p)
]
