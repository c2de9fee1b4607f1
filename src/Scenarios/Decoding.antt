-- ===== src/Scenarios/Decoding.antt =====
-- The decoder's theorems at an instruction.
use hexheld_emu.Decode.{PilotDecodeState, decoder_half1_read_inst_word}
use hexheld_emu.Decode.Inst.{
  arithmetic_imm, arithmetic_rm, decode_inst, decode_inst_arithlogic, decode_inst_branch,
  decode_inst_ld_group, opcode_size,
}
use hexheld_emu.Decode.Inst.Arithmetic.{
  control, decode_inst_arithlogic-immediate, decode_inst_arithlogic-register, mnemonic_of,
  operation_field, prepared,
}
use hexheld_emu.Decode.Inst.Branches.{decode_inst_branch-call_dead}
use hexheld_emu.Decode.Inst.Groups.{decode_inst-group_of, group_of, run_group}
use hexheld_emu.Decode.Inst.LoadPairs.{decode_inst-pair, ld_prepared}
use hexheld_emu.Decode.Inst.Loads.{decode_inst_ld_group-lea_direct}
use hexheld_emu.Decode.Rm.{decode_rm_specifier, right_src, rm_requires_mem_fetch}
use hexheld_emu.Decode.Rm.Destinations.{dest_operand}
use hexheld_emu.Decode.Rm.Modes.{encode, post_increment, register_direct}
use hexheld_emu.Decode.Rm.Operands.{decode_rm_specifier-source_operand, source_operand}
use hexheld_emu.Decode.Rm.Pointer.{
  Counted, ReadsWords, decode_rm_specifier-returns, decode_rm_specifier-second_direct,
}
use hexheld_emu.Prelude.{
  arith, false, fault, inl, no_return, refl, true, unset_pointer, ℕ, ◌%◌, ◌/◌, ◌>>=◌, ◌^◌, ◌≡◌,
}
use hexheld_emu.Scenarios.{decoder, reader}
use hexheld_emu.Types.{size_16_bit, size_8_bit, size_of_code}

abbrev start : ℕ → PilotDecodeState
start opcode = decoder decoder_half1_read_inst_word false opcode 0

reader-ReadsWords : ReadsWords reader
reader-ReadsWords s = refl

decode_rm_specifier-source_operand_example :
    decode_rm_specifier reader
      (record (start 0) { rm_ops = 0 })
      (encode (post_increment 3))
      false
      false
      size_16_bit
    ≡ source_operand reader (post_increment 3) right_src size_16_bit (start 0)
decode_rm_specifier-source_operand_example =
    decode_rm_specifier-source_operand reader (start 0) (post_increment 3) false size_16_bit
      (omega arith)

decode_rm_specifier-returns_example :
    Counted 1 (decode_rm_specifier reader (start 0) 0x3d false true size_8_bit)
decode_rm_specifier-returns_example =
    decode_rm_specifier-returns reader reader-ReadsWords (start 0) 0x3d false true size_8_bit
      (omega arith) (omega arith) (inl (omega arith))

decode_rm_specifier-second_direct_example :
    decode_rm_specifier reader (record (start 0) { rm_ops = 1 }) 0x04 false true size_8_bit
    ≡ fault unset_pointer
unfolding rm_requires_mem_fetch
decode_rm_specifier-second_direct_example =
    decode_rm_specifier-second_direct reader (record (start 0) { rm_ops = 1 }) 0x04 false true
      size_8_bit (omega arith) refl refl

decode_inst-group_of_example :
    decode_inst reader (start 0x5881)
    ≡ run_group reader (group_of (0x5881 / 2 ^ 12)) (record (start 0x5881) { rm_ops = 0 }) 0x5881
decode_inst-group_of_example = decode_inst-group_of reader (start 0x5881) (omega arith)

decode_inst_arithlogic-register_example :
    decode_inst_arithlogic reader (start 0x6884) 0x6884
    ≡ arithmetic_rm reader
        (control (mnemonic_of (operation_field 0x6884 % 8)) (prepared (start 0x6884)))
        0x6884
        (opcode_size 0x6884)
decode_inst_arithlogic-register_example =
    decode_inst_arithlogic-register reader (start 0x6884) 0x6884 (omega arith)

decode_inst_arithlogic-immediate_example : decode_inst_arithlogic reader (start 0x7bc1) 0x7bc1 ≡ (
    reader.unreachable (control (mnemonic_of (0x7bc1 / 2 ^ 8 % 8)) (prepared (start 0x7bc1)))
    >>= λ t. arithmetic_imm reader t 0x7bc1 (0x7bc1 / 2 ^ 8 % 8) (opcode_size 0x7bc1))
decode_inst_arithlogic-immediate_example =
    decode_inst_arithlogic-immediate reader (start 0x7bc1) 0x7bc1 (omega arith)

decode_inst_ld_group-lea_direct_example :
    decode_inst_ld_group reader (start 0x98c4) 0x98c4 ≡ fault unset_pointer
unfolding rm_requires_mem_fetch
decode_inst_ld_group-lea_direct_example =
    decode_inst_ld_group-lea_direct reader reader-ReadsWords (start 0x98c4) 0x98c4 refl refl refl
      refl

decode_inst_branch-call_dead_example :
    decode_inst_branch
      (record reader { not_implemented_undeclared = λ s. fault no_return })
      (start 0xe100)
      0xe100
    ≡ decode_inst_branch reader (start 0xe100) 0xe100
decode_inst_branch-call_dead_example =
    decode_inst_branch-call_dead reader (λ s. fault no_return) (start 0xe100) 0xe100

-- LD of a word from register 3 to the address in register 2, with post-increment.
decode_inst-pair_example : decode_inst reader (start 0x5a0c) ≡ (
    source_operand reader
      (register_direct 3)
      right_src
      size_16_bit
      (ld_prepared size_16_bit (start 0x5a0c))
    >>= dest_operand reader (post_increment 2))
unfolding size_of_code
decode_inst-pair_example =
    decode_inst-pair 1 (register_direct 3) (post_increment 2) (omega arith) (omega arith)
      (omega arith) (λ e. absurd (omega arith)) reader reader-ReadsWords (start 0x5a0c) refl
