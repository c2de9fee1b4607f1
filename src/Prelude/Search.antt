-- ===== src/Prelude/Search.antt =====
-- Statements over a small range of numbers, proved by running a test on each of them.
use Prim.Native.Nat.{ℕ, zero, suc, ◌+◌, ◌-◌, ◌<◌}
use mathlib.Core.Path.{◌≡◌, subst}
use native.Mathlib.Decide.{dec_lt}
use mathlib.Core.Bool.{Bool, true, ◌&&◌}
use native.Mathlib.Omega.{arith}

-- Does `test` succeed on each of the first numbers, counted downwards?
unfoldable pub passes : (ℕ → Bool) → ℕ → Bool
passes test zero = true
passes test (suc k) = passes test k && test k

pub passes_at : (test : ℕ → Bool) (i k : ℕ) → i < k → passes test k ≡ true → test i ≡ true
unfolding passes
passes_at test i zero small all = absurd (omega arith)
passes_at test i (suc k) small all = ground (arith, passes_at test i k)

-- A statement about the numbers below 8, or below 16, from its instances.
pub below_8 :
    (P : ℕ → Type 0) → P 0 → P 1 → P 2 → P 3 → P 4 → P 5 → P 6 → P 7 → (n : ℕ) → n < 8 → P n
below_8 P a b c d e f g h zero lt = a
below_8 P a b c d e f g h (suc zero) lt = b
below_8 P a b c d e f g h (suc (suc zero)) lt = c
below_8 P a b c d e f g h (suc (suc (suc zero))) lt = d
below_8 P a b c d e f g h (suc (suc (suc (suc zero)))) lt = e
below_8 P a b c d e f g h (suc (suc (suc (suc (suc zero))))) lt = f
below_8 P a b c d e f g h (suc (suc (suc (suc (suc (suc zero)))))) lt = g
below_8 P a b c d e f g h (suc (suc (suc (suc (suc (suc (suc zero))))))) lt = h
below_8 P a b c d e f g h (suc (suc (suc (suc (suc (suc (suc (suc n)))))))) lt =
    absurd (omega arith)

pub below_16 :
    (P : ℕ → Type 0)
    → P 0
    → P 1
    → P 2
    → P 3
    → P 4
    → P 5
    → P 6
    → P 7
    → P 8
    → P 9
    → P 10
    → P 11
    → P 12
    → P 13
    → P 14
    → P 15
    → (n : ℕ) → n < 16
    → P n
below_16 P p0 p1 p2 p3 p4 p5 p6 p7 p8 p9 p10 p11 p12 p13 p14 p15 n lt = elim (dec_lt n 8) [
  | yes low ↦ below_8 P p0 p1 p2 p3 p4 p5 p6 p7 n low
  | no high ↦
      subst P (omega arith)
        (below_8 (λ k. P (k + 8)) p8 p9 p10 p11 p12 p13 p14 p15 (n - 8) (omega arith))
]
