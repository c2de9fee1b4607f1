-- ===== src/Execute/Alu/Add.antt =====
-- pilot-cpu/cpu_execute.c, `execute_half2_result_latch_`: the addition and the subtraction.
use hexheld_emu.Bits.{bit_and-mask}
use hexheld_emu.Execute.Alu.{
  add_to_operand, alu_compute, alu_operate_shifter, alu_result, decimal_adjust, has_bit,
  negate_operand, shifted,
}
use hexheld_emu.Execute.Alu.Operands.{operand_value, prepare_operand-operand_value}
use hexheld_emu.Prelude.{Bool, arith, false, refl, u16, u32, ℕ, ◌%◌, ◌&&◌, ◌+◌, ◌^◌, ◌∙◌, ◌≡◌}
use hexheld_emu.System.{f_carry, f_decimal}
use hexheld_emu.Types.{AluOperation, ExecuteControlWord, alu_add, is_8_bit, shifter_none}

pub shifter_off :
    (ctl : ExecuteControlWord) (flags : ℕ) (c : Bool) (x : ℕ)
    → ctl.shifter_mode ≡ shifter_none
    → alu_operate_shifter ctl flags c x ≡ (c, u16 x)
unfolding alu_operate_shifter shifted
shifter_off ctl flags c x h = rw h refl

pub decimal_off :
    (ctl : ExecuteControlWord) (flags a b : ℕ) (p : ℕ × ℕ)
    → (is_8_bit ctl.src0.size && has_bit flags f_decimal) ≡ false
    → decimal_adjust ctl flags a b p ≡ p
unfolding decimal_adjust
decimal_off ctl flags a b (latch, carries) h = ground arith

sum_24 :
    (op : AluOperation) (a b latch junk : ℕ)
    → op ≡ alu_add
    → (alu_result op a b latch junk).0 ≡ (a + b) % 2 ^ 24
unfolding alu_result
sum_24 op a b latch junk h = rw h (bit_and-mask 24 (u32 (a + b)) ∙ omega arith)

-- The second operand before the shifter.
abbrev pub second_operand : ExecuteControlWord → ℕ → ℕ → ℕ
second_operand ctl flags in1 = negate_operand ctl (
    add_to_operand ctl (has_bit flags f_carry)
      (operand_value ctl.src1.size ctl.src1.sign_extend in1))

module _ (ctl : ExecuteControlWord) (flags in0 in1 latch junk : ℕ) (adds : ctl.operation ≡ alu_add)
    (no_shift : ctl.shifter_mode ≡ shifter_none)
    (binary : (is_8_bit ctl.src0.size && has_bit flags f_decimal) ≡ false) where
  -- Without a shift, and unless an 8-bit addition is made in decimal mode, an addition puts on the latch the sum, cut to 24 bits, of the
  -- first operand and of the low 16 bits of the second: the shifter, through which the second operand goes
  -- even when it is off, takes a 16-bit number.
  pub alu_compute-add :
      (alu_compute ctl flags in0 in1 latch junk).latch
      ≡ (operand_value ctl.src0.size ctl.src0.sign_extend in0
          + second_operand ctl flags in1 % 2 ^ 16)
        % 2 ^ 24
  unfolding alu_compute
  alu_compute-add = rw (prepare_operand-operand_value ctl.src0 in0) (
      rw (prepare_operand-operand_value ctl.src1 in1) (
        rw (shifter_off ctl flags false (second_operand ctl flags in1) no_shift)
          (rw (decimal_off ctl flags _ _ _ binary) (sum_24 ctl.operation _ _ latch junk adds))))
