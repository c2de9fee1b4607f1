-- ===== src/Bits/Step.antt =====
-- The native `bit_and`, `bit_or` and `bit_xor` run through the binary digits on fuel. Each is here
-- split at its lowest digit, where the fuel no longer shows.
use Prim.Native.Nat.{
  bit_and-bitwise, bit_or-bitwise, bit_xor-bitwise, bitwise, differ, digits, max, min,
}
use hexheld_emu.Prelude.{
  arith, bit_and, bit_or, bit_xor, refl, suc, sym, zero, ℕ, ◌%◌, ◌*◌, ◌+◌, ◌/◌, ◌∙◌, ◌≡◌, ◌≤◌,
}

module _ (rest : ℕ → ℕ) (digit : ℕ → ℕ → ℕ) where
  -- Nothing is left of the first number.
  no_digits : (k b : ℕ) → digits rest digit k 0 b ≡ rest b
  no_digits zero b = refl
  no_digits (suc k) b = refl

  more_fuel : (k l a b : ℕ) → a ≤ k → a ≤ l → digits rest digit k a b ≡ digits rest digit l a b
  more_fuel k l zero b p q = no_digits k b ∙ sym (no_digits l b)
  more_fuel zero l (suc a) b p q = absurd (omega arith)
  more_fuel (suc k) zero (suc a) b p q = absurd (omega arith)
  more_fuel (suc k) (suc l) (suc a) b p q =
      rw (more_fuel k l (suc a / 2) (b / 2) (omega arith) (omega arith))

  -- One digit of a `bitwise` that gives 0 at 0 and 0.
  pub bitwise-step :
      (a b : ℕ)
      → bitwise rest digit (suc a) b
        ≡ bitwise rest digit (suc a / 2) (b / 2) * 2 + digit (suc a % 2) (b % 2)
  bitwise-step a b =
      omega (arith, more_fuel a (suc a / 2) (suc a / 2) (b / 2) (omega arith) (omega arith))

pub bit_and-step : (a b : ℕ) → bit_and a b ≡ bit_and (a / 2) (b / 2) * 2 + min (a % 2) (b % 2)
bit_and-step zero b = simp bit_and-bitwise (omega arith)
bit_and-step (suc a) b = simp bit_and-bitwise (bitwise-step (λ y. 0) min a b)

pub bit_or-step : (a b : ℕ) → bit_or a b ≡ bit_or (a / 2) (b / 2) * 2 + max (a % 2) (b % 2)
bit_or-step zero b = simp bit_or-bitwise (omega arith)
bit_or-step (suc a) b = simp bit_or-bitwise (bitwise-step (λ y. y) max a b)

pub bit_xor-step : (a b : ℕ) → bit_xor a b ≡ bit_xor (a / 2) (b / 2) * 2 + differ (a % 2) (b % 2)
bit_xor-step zero b = simp bit_xor-bitwise (omega arith)
bit_xor-step (suc a) b = simp bit_xor-bitwise (bitwise-step (λ y. y) differ a b)
