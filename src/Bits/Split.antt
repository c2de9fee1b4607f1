-- ===== src/Bits/Split.antt =====
-- What holds of every operation that works digit by digit: it may be done on the low `k` digits and
-- on the rest apart, and each digit of the result is the operation on that digit.
use native.Mathlib.Nat.{one-le-pow, pow-suc}
use hexheld_emu.Prelude.{arith, suc, zero, ℕ, ◌%◌, ◌*◌, ◌+◌, ◌/◌, ◌<◌, ◌^◌, ◌≡◌}

-- A number in front of one zero more.
one_zero_more : (k q : ℕ) → 2 * (q * 2 ^ k) ≡ q * 2 ^ suc k
one_zero_more k q = rw (pow-suc 2 k) (omega arith)

quotient : (p q r : ℕ) → r < p → (q * p + r) / p ≡ q
quotient p q r h = grind arith

-- The operation, what it does to a digit, its step, and its value at 0 and 0.
pub record IsDigitwise (op digit : ℕ → ℕ → ℕ) : Type 0 where
  pub step : (a b : ℕ) → op a b ≡ op (a / 2) (b / 2) * 2 + digit (a % 2) (b % 2)
  pub none : op 0 0 ≡ 0
  pub small : (a b : ℕ) → a < 2 → b < 2 → digit a b < 2

module _ {op digit : ℕ → ℕ → ℕ} (law : IsDigitwise op digit) where
  pub split :
      (k q r m n : ℕ)
      → r < 2 ^ k
      → n < 2 ^ k
      → op (q * 2 ^ k + r) (m * 2 ^ k + n) ≡ op q m * 2 ^ k + op r n
  split zero q r m n hr hn = ground (arith, law.none)
  split (suc k) q r m n hr hn = ground (
    arith,
    law.step (q * 2 ^ suc k + r) (m * 2 ^ suc k + n),
    law.step r n,
    one_zero_more k q,
    one_zero_more k m,
    one_zero_more k (op q m),
    pow-suc 2 k,
    split k q (r / 2) m (n / 2) (omega (arith, pow-suc 2 k)) (omega (arith, pow-suc 2 k)),
  )

  pub split_at :
      (k a b : ℕ) → op a b ≡ op (a / 2 ^ k) (b / 2 ^ k) * 2 ^ k + op (a % 2 ^ k) (b % 2 ^ k)
  split_at k a b =
      ground (arith, one-le-pow k 2, split k (a / 2 ^ k) (a % 2 ^ k) (b / 2 ^ k) (b % 2 ^ k))

  -- Two digits alone.
  one_digit : (a b : ℕ) → a < 2 → b < 2 → op a b ≡ digit a b
  one_digit a b ha hb = ground (arith, law.step a b, law.none)

  -- The result has no more digits than the operands.
  pub op-lt : (k a b : ℕ) → a < 2 ^ k → b < 2 ^ k → op a b < 2 ^ k
  op-lt zero a b ha hb = ground (arith, law.none)
  op-lt (suc k) a b ha hb = ground (
    arith,
    law.step a b,
    law.small (a % 2) (b % 2),
    pow-suc 2 k,
    op-lt k (a / 2) (b / 2) (omega (arith, pow-suc 2 k)) (omega (arith, pow-suc 2 k)),
  )

  -- The operation on what stands above the low `k` digits.
  pub op-div : (k a b : ℕ) → op a b / 2 ^ k ≡ op (a / 2 ^ k) (b / 2 ^ k)
  op-div k a b =
      let low : op (a % 2 ^ k) (b % 2 ^ k) < 2 ^ k =
        op-lt k _ _ (ground (arith, one-le-pow k 2)) (ground (arith, one-le-pow k 2)) in
      rw (split_at k a b) (quotient (2 ^ k) _ _ low)

  -- The digit at place `k`.
  pub digit_at : (k a b : ℕ) → op a b / 2 ^ k % 2 ≡ digit (a / 2 ^ k % 2) (b / 2 ^ k % 2)
  digit_at k a b = rw (op-div k a b) (
      ground (
        arith,
        law.step (a / 2 ^ k) (b / 2 ^ k),
        law.small (a / 2 ^ k % 2) (b / 2 ^ k % 2) (omega arith) (omega arith),
      ))
