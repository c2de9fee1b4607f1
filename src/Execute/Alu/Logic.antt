-- ===== src/Execute/Alu/Logic.antt =====
-- pilot-cpu/cpu_execute.c, `execute_half2_result_latch_`: the operations on the bits of 16-bit words.
use hexheld_emu.Execute.Alu.{add_to_operand, alu_compute, alu_result, has_bit, negate_operand}
use hexheld_emu.Execute.Alu.Add.{decimal_off, second_operand, shifter_off}
use hexheld_emu.Execute.Alu.Operands.{operand_value, prepare_operand-operand_value}
use hexheld_emu.Prelude.{
  arith, bit_and, bit_or, bit_xor, false, inl, inr, refl, u16, ℕ, ◌%◌, ◌&&◌, ◌^◌, ◌≡◌, ◌⊎◌,
}
use hexheld_emu.System.{f_decimal}
use hexheld_emu.Types.{
  AluOperation, ExecuteControlWord, alu_and, alu_or, alu_xor, is_8_bit, shifter_none, size_16_bit,
}

-- The operation by itself.
abbrev pub on_bits : AluOperation → ℕ → ℕ → ℕ
on_bits alu_and x y = bit_and x y
on_bits alu_or x y = bit_or x y
on_bits alu_xor x y = bit_xor x y
on_bits _ x y = 0

-- The control word asks for one of them, on 16-bit sources that are neither shifted nor changed.
pub record IsPlain (ctl : ExecuteControlWord) : Type 0 where
  pub logic : (ctl.operation ≡ alu_and) ⊎ ((ctl.operation ≡ alu_or) ⊎ (ctl.operation ≡ alu_xor))
  pub no_shift : ctl.shifter_mode ≡ shifter_none
  pub size0 : ctl.src0.size ≡ size_16_bit
  pub size1 : ctl.src1.size ≡ size_16_bit
  pub sign0 : ctl.src0.sign_extend ≡ false
  pub sign1 : ctl.src1.sign_extend ≡ false
  pub no_increment : ctl.src2_add1 ≡ false
  pub no_carry : ctl.src2_add_carry ≡ false
  pub no_negate : ctl.src2_negate ≡ false

plain_second :
    (ctl : ExecuteControlWord) (flags in1 : ℕ)
    → IsPlain ctl
    → second_operand ctl flags in1 ≡ in1 % 2 ^ 16
unfolding negate_operand add_to_operand
plain_second ctl flags in1 h =
    rw (h.size1) (rw (h.sign1) (rw (h.no_increment) (rw (h.no_carry) (rw (h.no_negate) refl))))

result_on_bits :
    (op : AluOperation) (a b latch junk : ℕ)
    → (op ≡ alu_and) ⊎ ((op ≡ alu_or) ⊎ (op ≡ alu_xor))
    → (alu_result op a b latch junk).0 ≡ on_bits op a b
unfolding alu_result
result_on_bits op a b latch junk (inl h) = rw h refl
result_on_bits op a b latch junk (inr (inl h)) = rw h refl
result_on_bits op a b latch junk (inr (inr h)) = rw h refl

-- For 16-bit sources that are not extended, shifted, incremented or negated, the latch holds the
-- conjunction, disjunction or exclusive or of the low 16 bits of the two inputs.
pub alu_compute-on_bits :
    (ctl : ExecuteControlWord) (flags in0 in1 latch junk : ℕ)
    → IsPlain ctl
    → (alu_compute ctl flags in0 in1 latch junk).latch
      ≡ on_bits ctl.operation (in0 % 2 ^ 16) (in1 % 2 ^ 16)
unfolding alu_compute
alu_compute-on_bits ctl flags in0 in1 latch junk h =
    let binary : (is_8_bit ctl.src0.size && has_bit flags f_decimal) ≡ false = rw h.size0 refl in
    let first : operand_value ctl.src0.size ctl.src0.sign_extend in0 ≡ in0 % 2 ^ 16 =
      rw h.size0 (rw h.sign0 refl) in
    let second : u16 (second_operand ctl flags in1) ≡ in1 % 2 ^ 16 =
      rw (plain_second ctl flags in1 h) (omega arith) in
    rw (prepare_operand-operand_value ctl.src0 in0) (
      rw (prepare_operand-operand_value ctl.src1 in1) (
        rw (shifter_off ctl flags false (second_operand ctl flags in1) h.no_shift) (
          rw (decimal_off ctl flags _ _ _ binary)
            (rw first (rw second (result_on_bits ctl.operation _ _ latch junk h.logic))))))
