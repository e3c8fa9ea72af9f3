-- ===== src/Base/Bits.antt =====
-- Bitwise operations at variables, from the digit recursion that the native operations stand for.
use Prim.Native.Nat.{
  ℕ, zero, suc, ◌+◌, ◌*◌, ◌/◌, ◌%◌, ◌^◌, ◌≤◌, ◌<◌, max, differ, bit_or, bit_xor, digits,
  bit_or-bitwise, bit_xor-bitwise,
}
use mathlib.Core.Path.{◌≡◌, refl, ap, sym, ◌∙◌}
use mathlib.Core.Bool.{Bool}
use native.Mathlib.Nat.{pow-suc, mul_assoc}
use native.Mathlib.Omega.{arith}
use splatit.Base.Tests.{◌==◌}

-- `flags & flag` as a condition, for a flag that is a power of two.
abbrev pub has_flag : ℕ → ℕ → Bool
has_flag flags flag = flags / flag % 2 == 1

module _ (f : ℕ → ℕ → ℕ) where
  abbrev run_digits : ℕ → ℕ → ℕ → ℕ
  run_digits n a b = digits (λ b. b) f n a b

  run_digits_fuel : (n m a b : ℕ) → a ≤ n → a ≤ m → run_digits n a b ≡ run_digits m a b
  run_digits_fuel zero zero a b p q = refl
  run_digits_fuel zero (suc m) zero b p q = refl
  run_digits_fuel zero (suc m) (suc a) b p q = absurd (omega arith)
  run_digits_fuel (suc n) zero zero b p q = refl
  run_digits_fuel (suc n) zero (suc a) b p q = absurd (omega arith)
  run_digits_fuel (suc n) (suc m) zero b p q = refl
  run_digits_fuel (suc n) (suc m) (suc a) b p q =
      ap (λ (t : ℕ). t * 2 + f (suc a % 2) (b % 2))
        (run_digits_fuel n m (suc a / 2) (b / 2) (omega arith) (omega arith))

pub zero-bit_or : (b : ℕ) → bit_or 0 b ≡ b
zero-bit_or b = bit_or-bitwise 0 b

pub bit_or_step : (a b : ℕ) → bit_or a b ≡ bit_or (a / 2) (b / 2) * 2 + max (a % 2) (b % 2)
bit_or_step zero b = omega (arith, zero-bit_or b, zero-bit_or (b / 2))
bit_or_step (suc a) b = omega (
  arith,
  bit_or-bitwise (suc a) b,
  bit_or-bitwise (suc a / 2) (b / 2),
  run_digits_fuel max a (suc a / 2) (suc a / 2) (b / 2) (omega arith) (omega arith),
)

-- Nibbles that do not overlap: the lower one in `x`, the upper one shifted by four.
pub bit_or_nibbles : (x y : ℕ) → x < 16 → bit_or x (y * 16) ≡ x + y * 16
bit_or_nibbles x y h = omega (
  arith,
  bit_or_step x (y * 16),
  bit_or_step (x / 2) (y * 16 / 2),
  bit_or_step (x / 2 / 2) (y * 16 / 2 / 2),
  bit_or_step (x / 2 / 2 / 2) (y * 16 / 2 / 2 / 2),
  ap (λ (t : ℕ). bit_or t (y * 16 / 2 / 2 / 2 / 2)) (top x h),
  zero-bit_or (y * 16 / 2 / 2 / 2 / 2),
)
  where
    top : (x : ℕ) → x < 16 → x / 2 / 2 / 2 / 2 ≡ 0
    top x h = omega arith

-- `v | 0x80` for a value below 0x80.
pub bit_or_top : (x : ℕ) → x < 128 → bit_or x 128 ≡ x + 128
bit_or_top x h = omega (
  arith,
  bit_or_step x 128,
  bit_or_step (x / 2) 64,
  bit_or_step (x / 2 / 2) 32,
  bit_or_step (x / 2 / 2 / 2) 16,
  bit_or_step (x / 2 / 2 / 2 / 2) 8,
  bit_or_step (x / 2 / 2 / 2 / 2 / 2) 4,
  bit_or_step (x / 2 / 2 / 2 / 2 / 2 / 2) 2,
  ap (λ (t : ℕ). bit_or t 1) (top x h),
  zero-bit_or 1,
)
  where
    top : (x : ℕ) → x < 128 → x / 2 / 2 / 2 / 2 / 2 / 2 / 2 ≡ 0
    top x h = omega arith

zero-bit_xor : (b : ℕ) → bit_xor 0 b ≡ b
zero-bit_xor b = bit_xor-bitwise 0 b

differ_bits : (x y : ℕ) → x < 2 → y < 2 → differ x y ≡ (x + y) % 2
differ_bits zero y h k = omega arith
differ_bits (suc zero) zero h k = refl
differ_bits (suc zero) (suc zero) h k = refl
differ_bits (suc zero) (suc (suc y)) h k = absurd (omega arith)
differ_bits (suc (suc x)) y h k = absurd (omega arith)

bit_xor_step : (a b : ℕ) → bit_xor a b ≡ bit_xor (a / 2) (b / 2) * 2 + (a % 2 + b % 2) % 2
bit_xor_step zero b = omega (arith, zero-bit_xor b, zero-bit_xor (b / 2))
bit_xor_step (suc a) b = omega (
  arith,
  bit_xor-bitwise (suc a) b,
  bit_xor-bitwise (suc a / 2) (b / 2),
  run_digits_fuel differ a (suc a / 2) (suc a / 2) (b / 2) (omega arith) (omega arith),
  differ_bits (suc a % 2) (b % 2) (omega arith) (omega arith),
)

bit_xor-self_fuel : (n k : ℕ) → k ≤ n → bit_xor k k ≡ 0
bit_xor-self_fuel n zero h = zero-bit_xor 0
bit_xor-self_fuel zero (suc k) h = absurd (omega arith)
bit_xor-self_fuel (suc n) (suc k) h =
    omega (arith, bit_xor_step (suc k) (suc k), bit_xor-self_fuel n (suc k / 2) (omega arith))

bit_xor_fuel : (n a k : ℕ) → a ≤ n → bit_xor (bit_xor a k) k ≡ a
bit_xor_fuel n zero k h = rw zero-bit_xor (bit_xor-self_fuel k k (omega arith))
bit_xor_fuel zero (suc a) k h = absurd (omega arith)
bit_xor_fuel (suc n) (suc a) k h = omega (
  arith,
  bit_xor_step (suc a) k,
  bit_xor_step (bit_xor (suc a) k) k,
  ap (λ (t : ℕ). bit_xor t (k / 2)) upper,
  bit_xor_fuel n (suc a / 2) (k / 2) (omega arith),
)
  where
    upper : bit_xor (suc a) k / 2 ≡ bit_xor (suc a / 2) (k / 2)
    upper = omega (arith, bit_xor_step (suc a) k)

-- Exclusive or with the same value twice is the identity.
pub bit_xor_twice : (a k : ℕ) → bit_xor (bit_xor a k) k ≡ a
bit_xor_twice a k = bit_xor_fuel a a k (omega arith)

pub bit_xor-lt-pow : (n a b : ℕ) → a < 2 ^ n → b < 2 ^ n → bit_xor a b < 2 ^ n
bit_xor-lt-pow zero zero zero h k = omega (arith, zero-bit_xor 0)
bit_xor-lt-pow zero zero (suc b) h k = absurd (omega arith)
bit_xor-lt-pow zero (suc a) b h k = absurd (omega arith)
bit_xor-lt-pow (suc n) a b h k =
    let e = pow-suc 2 n in
    omega (
      arith,
      e,
      bit_xor_step a b,
      bit_xor-lt-pow n (a / 2) (b / 2) (omega (arith, e)) (omega (arith, e)),
    )

-- `v | 1 << n` for a value below `1 << n`.
pub bit_or_power : (n x : ℕ) → x < 2 ^ n → bit_or x (2 ^ n) ≡ x + 2 ^ n
bit_or_power zero x h = omega (arith, h, zero-bit_or 1, ap (λ (t : ℕ). bit_or t 1) (below_one x h))
  where
    below_one : (x : ℕ) → x < 1 → x ≡ 0
    below_one x h = omega arith
bit_or_power (suc n) x h =
    let e = pow-suc 2 n in
    omega (
      arith,
      h,
      e,
      bit_or_step x (2 ^ suc n),
      ap (bit_or (x / 2)) (half (2 ^ suc n) (2 ^ n) (omega (arith, e))),
      bit_or_power n (x / 2) (omega (arith, h, e)),
    )
  where
    half : (a b : ℕ) → a ≡ b * 2 → a / 2 ≡ b
    half a b h = omega (arith, h)

bit_or-zero_fuel : (n w : ℕ) → w ≤ n → bit_or w 0 ≡ w
bit_or-zero_fuel n zero h = zero-bit_or 0
bit_or-zero_fuel zero (suc w) h = absurd (omega arith)
bit_or-zero_fuel (suc n) (suc w) h =
    omega (arith, bit_or_step (suc w) 0, bit_or-zero_fuel n (suc w / 2) (omega arith))

pub bit_or-zero : (w : ℕ) → bit_or w 0 ≡ w
bit_or-zero w = bit_or-zero_fuel w w (omega arith)

-- `v << n | x` for an `x` below `1 << n`.
pub bit_or_lanes : (n y x w : ℕ) → w ≡ y * 2 ^ n → x < 2 ^ n → bit_or w x ≡ w + x
bit_or_lanes zero y x w e h =
    omega (arith, ap (bit_or w) (below_one x h), bit_or-zero_fuel w w (omega arith), h)
  where
    below_one : (x : ℕ) → x < 1 → x ≡ 0
    below_one x h = omega arith
bit_or_lanes (suc n) y x w e h =
    let p = pow-suc 2 n in
    let twice : w ≡ y * 2 ^ n * 2 = e ∙ ap (λ (t : ℕ). y * t) p ∙ sym (mul_assoc y (2 ^ n) 2) in
    omega (
      arith,
      h,
      p,
      twice,
      bit_or_step w x,
      bit_or_lanes n y (x / 2) (w / 2) (omega (arith, twice)) (omega (arith, h, p)),
    )
