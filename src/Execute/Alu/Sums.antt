-- ===== src/Execute/Alu/Sums.antt =====
-- pilot-cpu/cpu_execute.c, `execute_half2_result_latch_`: additions and subtractions of bytes and of
-- 16-bit words, as arithmetic modulo their size.
use hexheld_emu.Bits.{bit_and-mask}
use hexheld_emu.Execute.Alu.{add_to_operand, alu_compute, has_bit, negate_operand}
use hexheld_emu.Execute.Alu.Add.{alu_compute-add, second_operand}
use hexheld_emu.Execute.Alu.Operands.{operand_value}
use hexheld_emu.Prelude.{
  Bool, arith, bit, false, if◌then◌else◌, refl, u32, ℕ, ◌%◌, ◌+◌, ◌-◌, ◌<◌, ◌^◌, ◌∙◌, ◌≡◌,
}
use hexheld_emu.System.{f_carry, f_decimal}
use hexheld_emu.Types.{ExecuteControlWord, alu_add, shifter_none, size_16_bit, size_8_bit}

-- What the control word adds to the second operand.
abbrev pub increment : ExecuteControlWord → ℕ → ℕ
increment ctl flags =
    if ctl.src2_add1 then 1 else if ctl.src2_add_carry then bit (has_bit flags f_carry) else 0

-- The second operand modulo `m`, a power of two, as the control word asks for it.
abbrev pub wanted : ExecuteControlWord → ℕ → ℕ → ℕ → ℕ
wanted ctl flags in1 m =
    let y = (in1 + increment ctl flags) % m in if ctl.src2_negate then (m - y) % m else y

incremented :
    (ctl : ExecuteControlWord) (flags x : ℕ)
    → x < 2 ^ 32
    → (add_to_operand ctl (has_bit flags f_carry) x % 2 ^ 16 ≡ (x + increment ctl flags) % 2 ^ 16)
      × (add_to_operand ctl (has_bit flags f_carry) x < 2 ^ 32)
unfolding add_to_operand
incremented ctl flags x h = ground arith

value_16 :
    (sign : Bool) (x : ℕ)
    → (operand_value size_16_bit sign x % 2 ^ 16 ≡ x % 2 ^ 16)
      × (operand_value size_16_bit sign x < 2 ^ 32)
value_16 sign x = ground arith

negated_16 :
    (ctl : ExecuteControlWord) (x : ℕ)
    → ctl.src1.size ≡ size_16_bit
    → x < 2 ^ 32
    → negate_operand ctl x % 2 ^ 16
      ≡ (if ctl.src2_negate then (2 ^ 16 - x % 2 ^ 16) % 2 ^ 16 else x % 2 ^ 16)
unfolding negate_operand
negated_16 ctl x h small = rw h (ground (arith, bit_and-mask 16 (u32 (2 ^ 32 - 1 - x + 1))))

second_16 :
    (ctl : ExecuteControlWord) (flags in1 : ℕ)
    → ctl.src1.size ≡ size_16_bit
    → second_operand ctl flags in1 % 2 ^ 16 ≡ wanted ctl flags in1 (2 ^ 16)
second_16 ctl flags in1 h =
    let v : ℕ = operand_value ctl.src1.size ctl.src1.sign_extend in1 in
    let x : ℕ = add_to_operand ctl (has_bit flags f_carry) v in
    let low : v % 2 ^ 16 ≡ in1 % 2 ^ 16 = rw h (value_16 ctl.src1.sign_extend in1).0 in
    let small : v < 2 ^ 32 = rw h (value_16 ctl.src1.sign_extend in1).1 in
    let sum = incremented ctl flags v small in negated_16 ctl x h sum.1 ∙ ground (arith, sum.0, low)

value_8 :
    (sign : Bool) (x : ℕ)
    → (operand_value size_8_bit sign x % 2 ^ 8 ≡ x % 2 ^ 8)
      × (operand_value size_8_bit sign x < 2 ^ 32)
value_8 sign x = ground arith

negated_8 :
    (ctl : ExecuteControlWord) (x : ℕ)
    → ctl.src1.size ≡ size_8_bit
    → x < 2 ^ 32
    → negate_operand ctl x % 2 ^ 8
      ≡ (if ctl.src2_negate then (2 ^ 8 - x % 2 ^ 8) % 2 ^ 8 else x % 2 ^ 8)
unfolding negate_operand
negated_8 ctl x h small = rw h (ground (arith, bit_and-mask 8 (u32 (2 ^ 32 - 1 - x + 1))))

second_8 :
    (ctl : ExecuteControlWord) (flags in1 : ℕ)
    → ctl.src1.size ≡ size_8_bit
    → second_operand ctl flags in1 % 2 ^ 8 ≡ wanted ctl flags in1 (2 ^ 8)
second_8 ctl flags in1 h =
    let v : ℕ = operand_value ctl.src1.size ctl.src1.sign_extend in1 in
    let x : ℕ = add_to_operand ctl (has_bit flags f_carry) v in
    let low : v % 2 ^ 8 ≡ in1 % 2 ^ 8 = rw h (value_8 ctl.src1.sign_extend in1).0 in
    let small : v < 2 ^ 32 = rw h (value_8 ctl.src1.sign_extend in1).1 in
    let sum = incremented ctl flags v small in negated_8 ctl x h sum.1 ∙ ground (arith, sum.0, low)

module _ (ctl : ExecuteControlWord) (flags in0 in1 latch junk : ℕ) (adds : ctl.operation ≡ alu_add)
    (no_shift : ctl.shifter_mode ≡ shifter_none) where
  -- For 16-bit sources, without a shift, the low 16 bits on the latch are the sum or, with
  -- `src2_negate`, the difference of the inputs modulo 2 ^ 16, the increment or, without
  -- `src2_add1`, the carry flag added to the second. This is added before the negation, so that a
  -- difference also subtracts it, and the increment excludes the carry; types.h lists the
  -- transformations in another order.
  pub alu_compute-sum_16 :
      ctl.src0.size ≡ size_16_bit
      → ctl.src1.size ≡ size_16_bit
      → (alu_compute ctl flags in0 in1 latch junk).latch % 2 ^ 16
        ≡ (in0 + wanted ctl flags in1 (2 ^ 16)) % 2 ^ 16
  alu_compute-sum_16 h0 h1 =
      let first : operand_value ctl.src0.size ctl.src0.sign_extend in0 % 2 ^ 16 ≡ in0 % 2 ^ 16 =
        rw h0 (value_16 ctl.src0.sign_extend in0).0 in
      omega (
        arith,
        first,
        second_16 ctl flags in1 h1,
        alu_compute-add ctl flags in0 in1 latch junk adds no_shift (rw h0 refl),
      )

  -- For 8-bit sources, without a shift and outside decimal mode, the low 8 bits on the latch are
  -- the sum or, with `src2_negate`, the difference of the inputs modulo 2 ^ 8, the increment or,
  -- without `src2_add1`, the carry flag added to the second. This is added before the negation, so
  -- that a difference also subtracts it, and the increment excludes the carry; types.h lists the
  -- transformations in another order.
  pub alu_compute-sum_8 :
      has_bit flags f_decimal ≡ false
      → ctl.src0.size ≡ size_8_bit
      → ctl.src1.size ≡ size_8_bit
      → (alu_compute ctl flags in0 in1 latch junk).latch % 2 ^ 8
        ≡ (in0 + wanted ctl flags in1 (2 ^ 8)) % 2 ^ 8
  alu_compute-sum_8 binary h0 h1 =
      let first : operand_value ctl.src0.size ctl.src0.sign_extend in0 % 2 ^ 8 ≡ in0 % 2 ^ 8 =
        rw h0 (value_8 ctl.src0.sign_extend in0).0 in
      omega (
        arith,
        first,
        second_8 ctl flags in1 h1,
        alu_compute-add ctl flags in0 in1 latch junk adds no_shift (rw h0 binary),
      )
