-- ===== src/Bits/Masks.antt =====
-- `&` with a mask or with a single bit, `|` of fields that do not meet, as arithmetic.
use Prim.Native.Nat.{bit_and-bitwise, bit_or-bitwise, bit_xor-bitwise, differ, max, min}
use native.Mathlib.Nat.{one-le-pow, pow-suc}
use hexheld_emu.Bits.Split.{IsDigitwise, split}
use hexheld_emu.Bits.Step.{bit_and-step, bit_or-step, bit_xor-step}
use hexheld_emu.Prelude.{
  arith, bit_and, bit_or, bit_xor, refl, suc, zero, ℕ, ◌%◌, ◌*◌, ◌+◌, ◌-◌, ◌/◌, ◌<◌, ◌^◌, ◌≡◌, ◌≤◌,
}

pub and_law : IsDigitwise bit_and min
and_law = record { step = bit_and-step; none = refl; small = λ a b p q. omega arith }

pub or_law : IsDigitwise bit_or max
or_law = record { step = bit_or-step; none = refl; small = λ a b p q. omega arith }

differ-lt : (a b : ℕ) → a < 2 → b < 2 → differ a b < 2
differ-lt zero b p q = q
differ-lt (suc a) zero p q = p
differ-lt (suc a) (suc b) p q = differ-lt a b (omega arith) (omega arith)

pub xor_law : IsDigitwise bit_xor differ
xor_law = record { step = bit_xor-step; none = refl; small = differ-lt }

pub zero-bit_and : (b : ℕ) → bit_and 0 b ≡ 0
zero-bit_and b = bit_and-bitwise 0 b

pub zero-bit_or : (b : ℕ) → bit_or 0 b ≡ b
zero-bit_or b = bit_or-bitwise 0 b

pub zero-bit_xor : (b : ℕ) → bit_xor 0 b ≡ b
zero-bit_xor b = bit_xor-bitwise 0 b

-- A value that fits `n` bits, for the inductions over its digits.
bit_and-zero_below : (n a : ℕ) → a ≤ n → bit_and a 0 ≡ 0
bit_and-zero_below n zero h = refl
bit_and-zero_below zero (suc a) h = absurd (omega arith)
bit_and-zero_below (suc n) (suc a) h =
    omega (arith, bit_and-step (suc a) 0, bit_and-zero_below n (suc a / 2) (omega arith))

pub bit_and-zero : (a : ℕ) → bit_and a 0 ≡ 0
bit_and-zero a = bit_and-zero_below a a (omega arith)

bit_or-zero_below : (n a : ℕ) → a ≤ n → bit_or a 0 ≡ a
bit_or-zero_below n zero h = refl
bit_or-zero_below zero (suc a) h = absurd (omega arith)
bit_or-zero_below (suc n) (suc a) h =
    omega (arith, bit_or-step (suc a) 0, bit_or-zero_below n (suc a / 2) (omega arith))

pub bit_or-zero : (a : ℕ) → bit_or a 0 ≡ a
bit_or-zero a = bit_or-zero_below a a (omega arith)

-- `a & (2 ^ k - 1)`, first where `a` fits the mask.
bit_and-mask_self : (k a : ℕ) → a < 2 ^ k → bit_and a (2 ^ k - 1) ≡ a
bit_and-mask_self zero a h = ground arith
bit_and-mask_self (suc k) a h = ground (
  arith,
  bit_and-step a (2 ^ suc k - 1),
  pow-suc 2 k,
  one-le-pow k 2,
  bit_and-mask_self k (a / 2) (omega (arith, pow-suc 2 k)),
)

pub bit_and-mask : (k a : ℕ) → bit_and a (2 ^ k - 1) ≡ a % 2 ^ k
bit_and-mask k a = ground (
  arith,
  one-le-pow k 2,
  split and_law k (a / 2 ^ k) (a % 2 ^ k) 0 (2 ^ k - 1),
  bit_and-zero (a / 2 ^ k),
  bit_and-mask_self k (a % 2 ^ k),
)

-- `a & 2 ^ k`.
pub bit_and-bit : (k a : ℕ) → bit_and a (2 ^ k) ≡ a / 2 ^ k % 2 * 2 ^ k
bit_and-bit k a = ground (
  arith,
  one-le-pow k 2,
  split and_law k (a / 2 ^ k) (a % 2 ^ k) 1 0,
  bit_and-step (a / 2 ^ k) 1,
  bit_and-zero (a / 2 ^ k / 2),
  bit_and-zero (a % 2 ^ k),
)

-- `a & (m << k)`.
pub bit_and-shifted : (k m a : ℕ) → bit_and a (m * 2 ^ k) ≡ bit_and (a / 2 ^ k) m * 2 ^ k
bit_and-shifted k m a =
    ground
      (arith, one-le-pow k 2, split and_law k (a / 2 ^ k) (a % 2 ^ k) m 0, bit_and-zero (a % 2 ^ k))

-- `(q << k) | r` where `r` fits `k` bits.
pub bit_or-fields : (k q r : ℕ) → r < 2 ^ k → bit_or (q * 2 ^ k) r ≡ q * 2 ^ k + r
bit_or-fields k q r h =
    ground (arith, split or_law k q 0 0 r, bit_or-zero q, zero-bit_or r, one-le-pow k 2)

-- The same with the low field first.
pub bit_or-low : (k q r : ℕ) → r < 2 ^ k → bit_or r (q * 2 ^ k) ≡ q * 2 ^ k + r
bit_or-low k q r h =
    ground (arith, split or_law k 0 r q 0, zero-bit_or q, bit_or-zero r, one-le-pow k 2)
