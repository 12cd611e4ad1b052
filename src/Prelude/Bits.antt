-- ===== src/Prelude/Bits.antt =====
-- The C operator `&` on unsigned words: what a mask keeps, and what its complement keeps.
use Prim.Native.Nat.{
  ℕ, zero, suc, ◌+◌, ◌-◌, ◌*◌, ◌/◌, ◌%◌, ◌^◌, ◌≤◌, ◌<◌, min, bit_and, digits, bit_and-bitwise,
}
use mathlib.Core.Path.{◌≡◌, refl, ap}
use native.Mathlib.Nat.{pow-suc, one-le-pow}
use native.Mathlib.Omega.{arith}

common : ℕ → ℕ → ℕ → ℕ
common rounds x m = digits (λ _. zero) min rounds x m

-- Rounds above the number itself add nothing.
common_rounds : (j k x m : ℕ) → x ≤ j → x ≤ k → common j x m ≡ common k x m
unfolding common
common_rounds zero k (suc x) m h l = absurd (omega arith)
common_rounds j zero (suc x) m h l = absurd (omega arith)
common_rounds zero zero zero m h l = refl
common_rounds zero (suc k) zero m h l = refl
common_rounds (suc j) zero zero m h l = refl
common_rounds (suc j) (suc k) zero m h l = refl
common_rounds (suc j) (suc k) (suc x) m h l =
    omega (arith, common_rounds j k (suc x / 2) (m / 2) (omega arith) (omega arith))

zero-and : (m : ℕ) → bit_and 0 m ≡ 0
zero-and m = bit_and-bitwise 0 m

-- The lowest digit, and the others.
and_digit : (x m : ℕ) → bit_and x m ≡ bit_and (x / 2) (m / 2) * 2 + min (x % 2) (m % 2)
unfolding common
and_digit zero m = omega (arith, zero-and m, zero-and (m / 2))
and_digit (suc x) m =
    let rest = common_rounds x (suc x / 2) (suc x / 2) (m / 2) (omega arith) (omega arith) in
    omega (arith, bit_and-bitwise (suc x) m, bit_and-bitwise (suc x / 2) (m / 2), rest)

and-zero : (k x : ℕ) → x ≤ k → bit_and x 0 ≡ 0
and-zero k zero h = zero-and 0
and-zero zero (suc x) h = absurd (omega arith)
and-zero (suc k) (suc x) h =
    omega (arith, and_digit (suc x) 0, and-zero k (suc x / 2) (omega arith))

-- `q * 2 ^ suc k` is an even number, for `omega`.
double : (q k : ℕ) → q * 2 ^ suc k ≡ 2 * (q * 2 ^ k)
double q k = omega (arith, ap (λ (p : ℕ). q * p) (pow-suc 2 k))

and_fields : (k q r : ℕ) → r < 2 ^ k → bit_and (q * 2 ^ k + r) (2 ^ k - 1) ≡ r
and_fields zero q r h = omega (arith, and-zero (q * 1 + r) (q * 1 + r) (omega arith))
and_fields (suc k) q r h = ground (
  arith,
  double q k,
  pow-suc 2 k,
  and_digit (q * 2 ^ suc k + r) (2 ^ suc k - 1),
  and_fields k q (r / 2) (omega (arith, pow-suc 2 k)),
)

pub and_low_bits : (k x : ℕ) → bit_and x (2 ^ k - 1) ≡ x % 2 ^ k
and_low_bits k x = ground (arith, one-le-pow k 2, and_fields k (x / 2 ^ k) (x % 2 ^ k))

pub and-le : (k x m : ℕ) → x ≤ k → bit_and x m ≤ m
and-le k zero m h = omega (arith, zero-and m)
and-le zero (suc x) m h = absurd (omega arith)
and-le (suc k) (suc x) m h =
    ground (arith, and_digit (suc x) m, and-le k (suc x / 2) (m / 2) (omega arith))

complement_digit : (a b : ℕ) → a < 2 → b < 2 → min a b + min a (1 - b) ≡ a
complement_digit zero b h l = ground arith
complement_digit (suc zero) zero h l = refl
complement_digit (suc zero) (suc b) h l = ground arith
complement_digit (suc (suc a)) b h l = absurd (omega arith)

-- A mask and its complement share out the bits of a number.
pub and_complement :
    (k x m : ℕ) → x < 2 ^ k → m < 2 ^ k → bit_and x m + bit_and x (2 ^ k - 1 - m) ≡ x
and_complement zero zero zero h l = omega (arith, zero-and 0)
and_complement zero (suc x) m h l = absurd (omega arith)
and_complement zero zero (suc m) h l = absurd (omega arith)
and_complement (suc k) x m h l =
    let p = pow-suc 2 k in
    let rest = and_complement k (x / 2) (m / 2) (omega (arith, p)) (omega (arith, p)) in
    let half : (2 ^ suc k - 1 - m) / 2 ≡ 2 ^ k - 1 - m / 2 = omega (arith, p) in
    let odd : (2 ^ suc k - 1 - m) % 2 ≡ 1 - m % 2 = omega (arith, p) in
    let low = complement_digit (x % 2) (m % 2) (omega arith) (omega arith) in
    let split = and_digit x (2 ^ suc k - 1 - m) in
    let split' : bit_and x (2 ^ suc k - 1 - m)
        ≡ bit_and (x / 2) (2 ^ k - 1 - m / 2) * 2 + min (x % 2) (1 - m % 2) =
      rw (half, odd) at split in
    omega (arith, rest, low, and_digit x m, split')
