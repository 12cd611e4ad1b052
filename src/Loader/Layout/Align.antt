-- ===== src/Loader/Layout/Align.antt =====
-- Rounding up to a power of two, without a wrap.
use Prim.Native.Nat.{bit_and}
use native.Mathlib.Nat.{one-le-pow, pow-le-pow_right}
use kobox.Prelude.{
  ==_ne, add64, and_complement, and_low_bits, arith, false, u64_mod, ℕ, ◌*◌, ◌+◌, ◌-◌, ◌/◌, ◌<◌,
  ◌==◌, ◌^◌, ◌≡◌, ◌≤◌,
}
use kobox.Loader.Layout.{align_up64}

pub two-pow-le : (k : ℕ) → k ≤ 40 → 2 ^ k ≤ 2 ^ 40
two-pow-le k h = pow-le-pow_right (omega arith) h

module _ (k v : ℕ) (small : k ≤ 40) (low : v ≤ 2 ^ 62) where
  pub align_up64_eq : align_up64 v (2 ^ k) ≡ (v + (2 ^ k - 1)) / 2 ^ k * 2 ^ k
  unfolding align_up64
  align_up64_eq =
      let bound = two-pow-le k small in
      let least = one-le-pow k 2 (omega arith) in
      let nonzero : (2 ^ k == 0) ≡ false = ==_ne (2 ^ k) 0 (λ e. absurd (omega arith)) in
      let whole : add64 v (2 ^ k - 1) ≡ v + (2 ^ k - 1) = omega arith in
      let shared : bit_and (v + (2 ^ k - 1)) (2 ^ k - 1)
            + bit_and (v + (2 ^ k - 1)) (u64_mod - 1 - (2 ^ k - 1))
          ≡ v + (2 ^ k - 1) =
        and_complement 64 (v + (2 ^ k - 1)) (2 ^ k - 1) (omega arith) (omega arith) in
      let rest = and_low_bits k (v + (2 ^ k - 1)) in
      rw (nonzero, whole) (grind (arith, shared, rest))

  pub align_up64_bounds : (v ≤ align_up64 v (2 ^ k)) × (align_up64 v (2 ^ k) < v + 2 ^ k)
  align_up64_bounds = let least = one-le-pow k 2 (omega arith) in rw align_up64_eq (grind arith)
