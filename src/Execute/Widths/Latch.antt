-- ===== src/Execute/Widths/Latch.antt =====
-- pilot-cpu/cpu_execute.c, `execute_half2_result_latch_`: the result latch is a 32-bit number.
use hexheld_emu.Bits.{and_law, bit_and-mask, op-lt, or_law, xor_law}
use hexheld_emu.Execute.Alu.{
  add_to_operand, alu_compute, alu_operate_shifter, alu_result, decimal_adjust, has_bit,
  negate_operand, prepare_operand, shift_left, shift_right, shifted,
}
use hexheld_emu.Execute.Alu.Operands.{operand_value, prepare_operand-operand_value}
use hexheld_emu.Prelude.{Bool, arith, false, u16, u32, ℕ, ◌+◌, ◌<◌, ◌^◌}
use hexheld_emu.System.{f_carry}
use hexheld_emu.Types.{
  AluOperation, AluSrcControl, DataSizeSpec, ExecuteControlWord, ShifterMode, alu_add, alu_and,
  alu_off, alu_or, alu_xor, shifter_left, shifter_left_barrel, shifter_left_carry, shifter_none,
  shifter_right_arith, shifter_right_barrel, shifter_right_carry, shifter_right_logical,
}

value-lt : (size : DataSizeSpec) (sign : Bool) (x : ℕ) → operand_value size sign x < 2 ^ 32
value-lt size sign x = ground arith

operand-lt : (src : AluSrcControl) (x : ℕ) → prepare_operand src x < 2 ^ 32
operand-lt src x = rw (prepare_operand-operand_value src x) (value-lt src.size src.sign_extend x)

-- The shifter takes and returns 16 bits.
shifted-lt :
    (mode : ShifterMode) (inv : Bool) (size : DataSizeSpec) (x : ℕ) (inject msb lsb : Bool)
    → x < 2 ^ 16
    → (shifted mode inv size x inject msb lsb).1 < 2 ^ 16
unfolding shifted shift_left shift_right
shifted-lt shifter_none inv size x inject msb lsb h = h
shifted-lt shifter_left inv size x inject msb lsb h = omega arith
shifted-lt shifter_left_carry inv size x inject msb lsb h = omega arith
shifted-lt shifter_left_barrel inv size x inject msb lsb h = omega arith
shifted-lt shifter_right_logical inv size x inject msb lsb h = omega arith
shifted-lt shifter_right_arith inv size x inject msb lsb h = omega arith
shifted-lt shifter_right_carry inv size x inject msb lsb h = omega arith
shifted-lt shifter_right_barrel inv size x inject msb lsb h = omega arith

pub alu_operate_shifter-lt :
    (ctl : ExecuteControlWord) (flags : ℕ) (carry : Bool) (x : ℕ)
    → (alu_operate_shifter ctl flags carry x).1 < 2 ^ 16
unfolding alu_operate_shifter
alu_operate_shifter-lt ctl flags carry x =
    shifted-lt ctl.shifter_mode ctl.invert_carries ctl.src1.size (u16 x) _ _ _ (omega arith)

-- The operation, and the decimal correction.
result-lt :
    (op : AluOperation) (a b latch junk : ℕ)
    → a < 2 ^ 32
    → b < 2 ^ 32
    → latch < 2 ^ 32
    → (alu_result op a b latch junk).0 < 2 ^ 32
unfolding alu_result
result-lt alu_off a b latch junk ha hb hl = hl
result-lt alu_add a b latch junk ha hb hl = omega (arith, bit_and-mask 24 (u32 (a + b)))
result-lt alu_and a b latch junk ha hb hl = op-lt and_law 32 a b ha hb
result-lt alu_or a b latch junk ha hb hl = op-lt or_law 32 a b ha hb
result-lt alu_xor a b latch junk ha hb hl = op-lt xor_law 32 a b ha hb

adjusted-lt :
    (ctl : ExecuteControlWord) (flags a b : ℕ) (r : ℕ × ℕ)
    → r.0 < 2 ^ 32
    → (decimal_adjust ctl flags a b r).0 < 2 ^ 32
unfolding decimal_adjust
adjusted-lt ctl flags a b (latch, carries) h = ground arith

-- Whatever the control word and the inputs: the result fits 32 bits where the old latch, which `ALU_OFF`
-- keeps, does.
pub alu_compute-lt :
    (ctl : ExecuteControlWord) (flags in0 in1 latch junk : ℕ)
    → latch < 2 ^ 32
    → (alu_compute ctl flags in0 in1 latch junk).latch < 2 ^ 32
unfolding alu_compute
alu_compute-lt ctl flags in0 in1 latch junk h =
    let y : ℕ =
      negate_operand ctl
        (add_to_operand ctl (has_bit flags f_carry) (prepare_operand ctl.src1 in1)) in
    adjusted-lt ctl flags _ _ _ (
      result-lt ctl.operation (prepare_operand ctl.src0 in0)
        (alu_operate_shifter ctl flags false y).1 latch junk (operand-lt ctl.src0 in0)
        (omega (arith, alu_operate_shifter-lt ctl flags false y)) h)
