-- ===== src/Scenarios/Computing.antt =====
-- The data bus's and the ALU's theorems at a state.
use hexheld_emu.Execute.{PilotExecuteState, exec_half1_ready, exec_seq_core_op_executed}
use hexheld_emu.Execute.Alu.{
  add_to_operand, alu_compute, alu_operate_shifter, flag_source_word, negate_operand,
}
use hexheld_emu.Execute.Alu.Add.{alu_compute-add}
use hexheld_emu.Execute.Alu.Flags.{flag_source_word-sum}
use hexheld_emu.Execute.Alu.Logic.{IsPlain, alu_compute-on_bits}
use hexheld_emu.Execute.Alu.LogicFlags.{flag_source_word-logic}
use hexheld_emu.Execute.Alu.Shifts.{alu_operate_shifter-shift_value}
use hexheld_emu.Execute.Alu.Sums.{alu_compute-sum_16, alu_compute-sum_8}
use hexheld_emu.Execute.Write.{write_data}
use hexheld_emu.Execute.Write.FallThrough.{Holds, write_data-imm_0_8}
use hexheld_emu.Execute.Write.RoundTrip.{WriteShows, write_data-word}
use hexheld_emu.Prelude.{arith, bit_xor, false, inr, ok, refl, true, xor, ◌%◌, ◌/◌, ◌^◌, ◌≡◌}
use hexheld_emu.Scenarios.{add_words, executor, instruction, quiet}
use hexheld_emu.System.{mctl_ready}
use hexheld_emu.Types.{
  ExecuteControlWord, alu_xor, data_reg_imm_0_8, data_reg_l1, data_reg_l2, data_reg_p1, data_reg_p2,
  data_reg_w0, mu_none, offset, shifter_right_barrel, size_24_bit, size_8_bit,
}

-- Every word of the instruction is 0x0504.
abbrev state : PilotExecuteState
state =
    executor mctl_ready exec_half1_ready exec_seq_core_op_executed false
      (instruction 0x0504 mu_none mu_none)

write_data-word_example : WriteShows quiet state (offset data_reg_w0 2) 0x155 2 0x55 0x01 0x12
write_data-word_example = write_data-word quiet state 0x155 2 (omega arith)

write_data-imm_0_8_example :
    (t : PilotExecuteState) × (write_data quiet state data_reg_imm_0_8 0x155 ≡ ok t)
    × Holds 0x155 t 5
    × Holds 0x155 t 5
    × Holds 0x155 t 1
    × Holds 0x155 t 5
    × Holds 0x155 t 1
write_data-imm_0_8_example = write_data-imm_0_8 quiet state 0x155 (omega arith)

-- A 24-bit addition, of which the upper byte of the second operand is lost.
abbrev add_pointers : ExecuteControlWord
add_pointers = record add_words {
  src0 = record { location = data_reg_p1; size = size_24_bit; sign_extend = false };
  src1 = record { location = data_reg_p2; size = size_24_bit; sign_extend = false };
}

alu_compute-add_example : (alu_compute add_pointers 0 0x010000 0x020003 0 0).latch ≡ 0x010003
unfolding add_to_operand negate_operand
alu_compute-add_example = alu_compute-add add_pointers 0 0x010000 0x020003 0 0 refl refl refl

alu_compute-sum_16_example : (alu_compute add_words 0 0xfff1 0xfff2 0 0).latch % 2 ^ 16 ≡ 0xffe3
alu_compute-sum_16_example = alu_compute-sum_16 add_words 0 0xfff1 0xfff2 0 0 refl refl refl refl

-- The subtraction of bytes with borrow, and with the carry flag set.
abbrev subtract_bytes : ExecuteControlWord
subtract_bytes = record add_words {
  src0 = record { location = data_reg_l1; size = size_8_bit; sign_extend = false };
  src1 = record { location = data_reg_l2; size = size_8_bit; sign_extend = false };
  src2_negate = true;
  src2_add_carry = true;
}

alu_compute-sum_8_example : (alu_compute subtract_bytes 0x08 0x10 0x01 0 0).latch % 2 ^ 8 ≡ 0x0e
alu_compute-sum_8_example =
    alu_compute-sum_8 subtract_bytes 0x08 0x10 0x01 0 0 refl refl refl refl refl

-- A rotation to the right.
abbrev rotate_right : ExecuteControlWord
rotate_right = record add_words { shifter_mode = shifter_right_barrel }

alu_operate_shifter-shift_value_example :
    alu_operate_shifter rotate_right 0 false 0x0003 ≡ (true, 0x8001)
unfolding xor
alu_operate_shifter-shift_value_example =
    alu_operate_shifter-shift_value rotate_right 0 false 0x0003 refl (omega arith)

-- A carry into the sign bit goes to the bits 1 and 0.
flag_source_word-sum_example :
    flag_source_word subtract_bytes false 0x7f 0x01 0x80 (bit_xor (bit_xor 0x7f 0x01) 0x80) ≡ 0x87
unfolding xor
flag_source_word-sum_example = flag_source_word-sum subtract_bytes false 0x7f 0x01 0x80 refl refl

-- The exclusive or of two words.
abbrev xor_words : ExecuteControlWord
xor_words = record add_words { operation = alu_xor }

-- A result that is neither zero nor negative.
flag_source_word-logic_example :
    (flag_source_word xor_words false 0x0101 0x0001 0x0100 0 / 2 ^ 2 % 2 ≡ 1)
    × (flag_source_word xor_words false 0x0101 0x0001 0x0100 0 / 2 ^ 6 % 2 ≡ 1)
    × (flag_source_word xor_words false 0x0101 0x0001 0x0100 0 / 2 ^ 7 % 2 ≡ 1)
flag_source_word-logic_example =
    flag_source_word-logic xor_words false 0x0101 0x0001 0x0100 0 refl (inr (inr refl))

xor_words-IsPlain : IsPlain xor_words
xor_words-IsPlain = record {
  logic = inr (inr refl);
  no_shift = refl;
  size0 = refl;
  size1 = refl;
  sign0 = refl;
  sign1 = refl;
  no_increment = refl;
  no_carry = refl;
  no_negate = refl;
}

alu_compute-on_bits_example : (alu_compute xor_words 0 0x1ff00 0x20ff0 0 0).latch ≡ 0xf0f0
alu_compute-on_bits_example = alu_compute-on_bits xor_words 0 0x1ff00 0x20ff0 0 0 xor_words-IsPlain
