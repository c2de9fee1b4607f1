-- ===== src/Execute/Alu/Flags.antt =====
-- pilot-cpu/cpu_execute.c, `alu_modify_flags_`: the flags of an addition.
use Prim.Native.Nat.{differ}
use hexheld_emu.Bits.{bit_and-bit, digit_at, xor_law}
use hexheld_emu.Execute.Alu.{
  flag_source_word, fold_parity, has_bit, is_zero_result, sign_mask, v_source,
}
use hexheld_emu.Prelude.{
  Bool, arith, bit, bit_and, bit_or, bit_xor, false, leb, refl, suc, sym, true, u8, xor, zero, ℕ,
  ◌%◌, ◌*◌, ◌+◌, ◌/◌, ◌<<<◌, ◌<◌, ◌^◌, ◌∙◌, ◌≡◌,
}
use hexheld_emu.Types.{
  DataSizeSpec, ExecuteControlWord, FlagVMode, alu_add, flag_v_clear, flag_v_normal,
  flag_v_shifter_carry, size_16_bit, size_24_bit, size_8_bit, size_code_3,
}

-- A byte from its digits, as the code puts it together.
pack :
    (n z v c : Bool)
    → u8 (
        bit_or
          (bit_or (u8 (bit_or (bit_or (bit n <<< 7) (bit z <<< 6)) (bit v <<< 2))) (bit c <<< 1))
          (bit c))
      ≡ 128 * bit n + 64 * bit z + 4 * bit v + 3 * bit c
pack true true true true = refl
pack true true true false = refl
pack true true false true = refl
pack true true false false = refl
pack true false true true = refl
pack true false true false = refl
pack true false false true = refl
pack true false false false = refl
pack false true true true = refl
pack false true true false = refl
pack false true false true = refl
pack false true false false = refl
pack false false true true = refl
pack false false true false = refl
pack false false false true = refl
pack false false false false = refl

pub differ-digit : (a b : ℕ) → a < 2 → b < 2 → differ a b ≡ (a + b) % 2
differ-digit zero b p q = omega arith
differ-digit (suc zero) zero p q = refl
differ-digit (suc zero) (suc zero) p q = refl
differ-digit (suc zero) (suc (suc b)) p q = absurd (omega arith)
differ-digit (suc (suc a)) b p q = absurd (omega arith)

digits3 : (a b c : ℕ) → a < 2 → b < 2 → c < 2 → differ (differ a b) c ≡ (a + b + c) % 2
digits3 a b c p q r =
    rw (differ-digit a b p q) (differ-digit ((a + b) % 2) c (omega arith) r ∙ omega arith)

-- A digit of `a ^ b ^ s`.
xor3-digit :
    (k a b s : ℕ)
    → bit_xor (bit_xor a b) s / 2 ^ k % 2 ≡ (a / 2 ^ k % 2 + b / 2 ^ k % 2 + s / 2 ^ k % 2) % 2
xor3-digit k a b s =
    rw (digit_at xor_law k (bit_xor a b) s)
      (rw (digit_at xor_law k a b) (digits3 _ _ _ (omega arith) (omega arith) (omega arith)))

-- The bit of `a ^ b ^ (a + b)` at the sign of a byte is the carry out of the seven digits below it.
carries_8 :
    (a b s : ℕ)
    → s % 2 ^ 8 ≡ (a + b) % 2 ^ 8
    → has_bit (bit_xor (bit_xor a b) s) 0x80 ≡ leb 0x80 (a % 0x80 + b % 0x80)
carries_8 a b s h = ground (arith, bit_and-bit 7 (bit_xor (bit_xor a b) s), xor3-digit 7 a b s)

carries_16 :
    (a b s : ℕ)
    → s % 2 ^ 16 ≡ (a + b) % 2 ^ 16
    → has_bit (bit_xor (bit_xor a b) s) 0x8000 ≡ leb 0x8000 (a % 0x8000 + b % 0x8000)
carries_16 a b s h = ground (arith, bit_and-bit 15 (bit_xor (bit_xor a b) s), xor3-digit 15 a b s)

carries_24 :
    (a b s : ℕ)
    → s % 2 ^ 24 ≡ (a + b) % 2 ^ 24
    → has_bit (bit_xor (bit_xor a b) s) 0x800000 ≡ leb 0x800000 (a % 0x800000 + b % 0x800000)
carries_24 a b s h = ground (arith, bit_and-bit 23 (bit_xor (bit_xor a b) s), xor3-digit 23 a b s)

-- The carries, as the code makes them of the operands and the result.
abbrev pub carries_of : ℕ → ℕ → ℕ → ℕ
carries_of a b s = bit_xor (bit_xor a b) s

-- The same at the sign of each size.
carries_sized :
    (size : DataSizeSpec) (a b s : ℕ)
    → s % (2 * sign_mask size) ≡ (a + b) % (2 * sign_mask size)
    → has_bit (carries_of a b s) (sign_mask size)
      ≡ leb (sign_mask size) (a % sign_mask size + b % sign_mask size)
carries_sized size_8_bit a b s h = carries_8 a b s h
carries_sized size_16_bit a b s h = carries_16 a b s h
carries_sized size_24_bit a b s h = carries_24 a b s h
carries_sized size_code_3 a b s h = carries_24 a b s h

module _ (ctl : ExecuteControlWord) (shifter_carry : Bool) (op0 op1 result carries : ℕ) where
  -- The V flag of an addition.
  abbrev pub v_flag : FlagVMode → Bool
  v_flag flag_v_normal =
      has_bit (bit_and (bit_xor op1 result) (bit_xor op0 result)) (sign_mask ctl.src0.size)
  v_flag flag_v_shifter_carry = shifter_carry
  v_flag flag_v_clear = false

  v_place :
      (m : FlagVMode)
      → v_source m alu_add (v_flag flag_v_normal) (fold_parity ctl.src0.size result) shifter_carry
        ≡ bit (v_flag m) <<< 2
  unfolding v_source
  v_place flag_v_normal = refl
  v_place flag_v_shifter_carry = refl
  v_place flag_v_clear = refl

  -- Of an addition, the flags that may be written are N at bit 7, Z at bit 6 and V at bit 2, and the carry both at
  -- bit 1 and at bit 0: bit 3, which is the carry flag of the register, is never set.
  pub flag_source_word-add :
      ctl.operation ≡ alu_add
      → flag_source_word ctl shifter_carry op0 op1 result carries
        ≡ 128 * bit (has_bit result (sign_mask ctl.src0.size))
          + 64 * bit (is_zero_result ctl.src0.size result)
          + 4 * bit (v_flag ctl.flag_v_mode)
          + 3 * bit (xor (has_bit carries (sign_mask ctl.src0.size)) ctl.invert_carries)
  unfolding flag_source_word
  flag_source_word-add adds = rw adds (rw (v_place ctl.flag_v_mode) (pack _ _ _ _))

-- In an addition of any size, with a result that is the sum up to that size and with the carries
-- that the code makes of the operands and the result: the flags that may be written are N at bit
-- 7, Z at bit 6 and V at bit 2, and, both at bit 1 and at bit 0, up to `invert_carries`, the carry
-- into the sign bit, not the carry out of it. Bit 3, which is the carry flag of the register, is
-- never set.
pub flag_source_word-sum :
    (ctl : ExecuteControlWord) (shifter_carry : Bool) (op0 op1 result : ℕ)
    → ctl.operation ≡ alu_add
    → result % (2 * sign_mask ctl.src0.size) ≡ (op0 + op1) % (2 * sign_mask ctl.src0.size)
    → flag_source_word ctl shifter_carry op0 op1 result (carries_of op0 op1 result)
      ≡ 128 * bit (has_bit result (sign_mask ctl.src0.size))
        + 64 * bit (is_zero_result ctl.src0.size result)
        + 4
          * bit
              (v_flag ctl shifter_carry op0 op1 result (carries_of op0 op1 result) ctl.flag_v_mode)
        + 3
          * bit (
              xor
                (leb
                  (sign_mask ctl.src0.size)
                  (op0 % sign_mask ctl.src0.size + op1 % sign_mask ctl.src0.size))
                ctl.invert_carries)
flag_source_word-sum ctl shifter_carry op0 op1 result adds sum =
    rw (sym (carries_sized ctl.src0.size op0 op1 result sum))
      (flag_source_word-add ctl shifter_carry op0 op1 result (carries_of op0 op1 result) adds)

lowest : (n z v : ℕ) (c : Bool) → (128 * n + 64 * z + 4 * v + 3 * bit c) % 2 ≡ bit c
lowest n z v c = ground arith

-- In an addition of bytes, with its result and with the carries that the code makes of the
-- operands and the result, the C flag is, up to `invert_carries`, the carry out of the low seven
-- bits, into the sign bit, and not the carry out of the byte.
pub flag_source_word-carry_8 :
    (ctl : ExecuteControlWord) (shifter_carry : Bool) (op0 op1 result : ℕ)
    → ctl.operation ≡ alu_add
    → ctl.src0.size ≡ size_8_bit
    → result % 2 ^ 8 ≡ (op0 + op1) % 2 ^ 8
    → flag_source_word ctl shifter_carry op0 op1 result (bit_xor (bit_xor op0 op1) result) % 2
      ≡ bit (xor (leb 0x80 (op0 % 0x80 + op1 % 0x80)) ctl.invert_carries)
flag_source_word-carry_8 ctl shifter_carry op0 op1 result adds size sum =
    let carries : ℕ = bit_xor (bit_xor op0 op1) result in
    let c : has_bit carries (sign_mask ctl.src0.size) ≡ leb 0x80 (op0 % 0x80 + op1 % 0x80) =
      rw size (carries_8 op0 op1 result sum) in
    rw (flag_source_word-add ctl shifter_carry op0 op1 result carries adds)
      (rw c (lowest _ _ _ (xor (leb 0x80 (op0 % 0x80 + op1 % 0x80)) ctl.invert_carries)))
