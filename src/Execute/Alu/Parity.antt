-- ===== src/Execute/Alu/Parity.antt =====
-- pilot-cpu/cpu_execute.c, `alu_modify_flags_`: the parity, and where it goes.
use native.Mathlib.Nat.{div-div-eq-div-mul, pow-suc}
use hexheld_emu.Bits.{op-div, xor_law}
use hexheld_emu.Execute.Alu.Flags.{differ-digit}
use hexheld_emu.Prelude.{
  ap, arith, bit_xor, if◌then◌else◌, suc, sym, zero, ℕ, ◌%◌, ◌+◌, ◌/◌, ◌>>>◌, ◌^◌, ◌∙◌, ◌≡◌,
}
use hexheld_emu.Types.{
  DataSizeSpec, is_16_bit, is_8_bit, size_8_bit, size_16_bit, size_24_bit, size_code_3,
}
use hexheld_emu.Execute.Alu.{fold_parity}

-- How many of the low `n` digits are 1.
abbrev pub ones : ℕ → ℕ → ℕ
ones zero x = 0
ones (suc n) x = x % 2 + ones n (x / 2)

ones-split : (n m x : ℕ) → ones (n + m) x ≡ ones n x + ones m (x / 2 ^ n)
ones-split zero m x =
    let none : 0 + m ≡ m = omega arith in
    let whole : x / 2 ^ 0 ≡ x = omega arith in rw none (rw whole (omega arith))
ones-split (suc n) m x =
    let next : suc n + m ≡ suc (n + m) = omega arith in
    let above : x / 2 ^ suc n ≡ x / 2 / 2 ^ n =
      ap (λ y. x / y) (pow-suc 2 n ∙ omega arith) ∙ sym (div-div-eq-div-mul x 2 (2 ^ n)) in
    rw next (rw above (rw (ones-split n m (x / 2)) (omega arith)))

-- The number of digits of a size.
abbrev pub width_of : DataSizeSpec → ℕ
width_of size = if is_8_bit size then 8 else if is_16_bit size then 16 else 24

-- One folding step.
abbrev fold : ℕ → ℕ → ℕ
fold j x = bit_xor x (x >>> j)

shift-div : (j k x : ℕ) → x / 2 ^ j / 2 ^ k ≡ x / 2 ^ k / 2 ^ j
shift-div j k x =
    div-div-eq-div-mul x (2 ^ j) (2 ^ k)
    ∙ ap (λ m. x / m) (omega arith)
    ∙ sym (div-div-eq-div-mul x (2 ^ k) (2 ^ j))

fold-div : (j k x : ℕ) → fold j x / 2 ^ k ≡ fold j (x / 2 ^ k)
fold-div j k x = op-div xor_law k x (x >>> j) ∙ ap (bit_xor (x / 2 ^ k)) (shift-div j k x)

xor-digit : (a b : ℕ) → bit_xor a b % 2 ≡ (a % 2 + b % 2) % 2
xor-digit a b =
    ground (arith, xor_law.step a b, differ-digit (a % 2) (b % 2) (omega arith) (omega arith))

fold-digit : (j x : ℕ) → fold j x % 2 ≡ (x % 2 + x / 2 ^ j % 2) % 2
fold-digit j x = xor-digit x (x / 2 ^ j)

abbrev folded_8 : ℕ → ℕ
folded_8 x = fold 1 (fold 2 (fold 4 x))

folded_8-div : (k x : ℕ) → folded_8 x / 2 ^ k ≡ folded_8 (x / 2 ^ k)
folded_8-div k x =
    fold-div 1 k (fold 2 (fold 4 x))
    ∙ ap (fold 1) (fold-div 2 k (fold 4 x) ∙ ap (fold 2) (fold-div 4 k x))

quarter : (x : ℕ) → x / 4 ≡ x / 2 / 2
quarter x = omega arith

sixteenth : (x : ℕ) → x / 16 ≡ x / 2 / 2 / 2 / 2
sixteenth x = omega arith

folded_4-digit :
    (x : ℕ)
    → fold 2 (fold 4 x) % 2
      ≡ (x % 2 + x / 2 / 2 / 2 / 2 % 2 + (x / 2 / 2 % 2 + x / 2 / 2 / 2 / 2 / 2 / 2 % 2)) % 2
folded_4-digit x = rw (fold-digit 2 (fold 4 x)) (
    rw (fold-div 4 2 x) (
      rw (fold-digit 4 x) (
        rw (fold-digit 4 (x / 4))
          (rw (quarter x) (rw (sixteenth x) (rw (sixteenth (x / 2 / 2)) (omega arith)))))))

folded_4-half : (x : ℕ) → fold 2 (fold 4 x) / 2 ≡ fold 2 (fold 4 (x / 2))
folded_4-half x = fold-div 2 1 (fold 4 x) ∙ ap (fold 2) (fold-div 4 1 x)

in_order :
    (a b c d e f g h : ℕ)
    → ((a + e + (c + g)) % 2 + (b + f + (d + h)) % 2) % 2
      ≡ (a + (b + (c + (d + (e + (f + (g + (h + 0)))))))) % 2
in_order a b c d e f g h = omega arith

folded_8-ones : (x : ℕ) → folded_8 x % 2 ≡ ones 8 x % 2
folded_8-ones x = rw (fold-digit 1 (fold 2 (fold 4 x))) (
    rw (folded_4-half x)
      (rw (folded_4-digit x) (rw (folded_4-digit (x / 2)) (in_order _ _ _ _ _ _ _ _))))

mod_sum : (a b : ℕ) → (a % 2 + b % 2) % 2 ≡ (a + b) % 2
mod_sum a b = omega arith

folded_16-ones : (x : ℕ) → fold 8 (folded_8 x) % 2 ≡ ones 16 x % 2
folded_16-ones x = rw (fold-digit 8 (folded_8 x)) (
    rw (folded_8-div 8 x) (
      rw (folded_8-ones x) (
        rw (folded_8-ones (x / 2 ^ 8))
          (mod_sum (ones 8 x) (ones 8 (x / 2 ^ 8)) ∙ ap (λ n. n % 2) (sym (ones-split 8 8 x))))))

-- The three bytes of a 24-bit result.
abbrev folded_24 : ℕ → ℕ
folded_24 x = bit_xor (folded_8 x) (bit_xor (folded_8 x >>> 8) (folded_8 x >>> 16))

folded_24-div : (k x : ℕ) → folded_24 x / 2 ^ k ≡ folded_24 (x / 2 ^ k)
folded_24-div k x =
    let f = folded_8 x in
    op-div xor_law k f (bit_xor (f >>> 8) (f >>> 16))
    ∙ ap (bit_xor (f / 2 ^ k)) (op-div xor_law k (f >>> 8) (f >>> 16))
    ∙ ap (λ y. bit_xor (f / 2 ^ k) (bit_xor y (f / 2 ^ 16 / 2 ^ k))) (shift-div 8 k f)
    ∙ ap (λ y. bit_xor (f / 2 ^ k) (bit_xor (f / 2 ^ k / 2 ^ 8) y)) (shift-div 16 k f)
    ∙ ap (λ y. bit_xor y (bit_xor (y >>> 8) (y >>> 16))) (folded_8-div k x)

folded_24-ones : (x : ℕ) → folded_24 x % 2 ≡ ones 24 x % 2
folded_24-ones x =
    let f = folded_8 x in
    let a = ones 8 x in
    let b = ones 8 (x / 2 ^ 8) in
    let c = ones 8 (x / 2 ^ 16) in
    xor-digit f (bit_xor (f >>> 8) (f >>> 16))
    ∙ ap (λ y. (f % 2 + y) % 2) (xor-digit (f >>> 8) (f >>> 16))
    ∙ rw (folded_8-div 8 x) (
        rw (folded_8-div 16 x) (
          rw (folded_8-ones x) (
            rw (folded_8-ones (x / 2 ^ 8)) (
              rw (folded_8-ones (x / 2 ^ 16)) (
                ap (λ y. (a % 2 + y) % 2) (mod_sum b c)
                ∙ mod_sum a (b + c)
                ∙ ap (λ n. n % 2)
                    (ap (λ y. a + y)
                        (ap (λ y. b + ones 8 y) (omega arith) ∙ sym (ones-split 8 8 (x / 2 ^ 8)))
                      ∙ sym (ones-split 8 16 x)))))))

-- The digit at place `k` of the folded result is the parity of as many digits of the result, from
-- that place up, as its size has.
pub fold_parity-ones :
    (size : DataSizeSpec) (k x : ℕ)
    → fold_parity size x / 2 ^ k % 2 ≡ ones (width_of size) (x / 2 ^ k) % 2
unfolding fold_parity
fold_parity-ones size_8_bit k x = ap (λ y. y % 2) (folded_8-div k x) ∙ folded_8-ones (x / 2 ^ k)
fold_parity-ones size_16_bit k x =
    ap (λ y. y % 2) (fold-div 8 k (folded_8 x) ∙ ap (fold 8) (folded_8-div k x))
    ∙ folded_16-ones (x / 2 ^ k)
fold_parity-ones size_24_bit k x = ap (λ y. y % 2) (folded_24-div k x) ∙ folded_24-ones (x / 2 ^ k)
fold_parity-ones size_code_3 k x = ap (λ y. y % 2) (folded_24-div k x) ∙ folded_24-ones (x / 2 ^ k)
