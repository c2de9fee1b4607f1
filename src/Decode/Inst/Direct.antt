-- ===== src/Decode/Inst/Direct.antt =====
-- pilot-cpu/cpu_decode.c: the arithmetic instructions on two 16-bit registers, from the opcode word.
use native.Mathlib.Decide.{dec_lt}
use hexheld_emu.Bits.{bit_and-mask, bit_and-shifted}
use hexheld_emu.Decode.{DecodeExterns, PilotDecodeState, set_core}
use hexheld_emu.Decode.Inst.{arithmetic_rm, decode_inst, opcode_size}
use hexheld_emu.Decode.Inst.Arithmetic.{
  Mnemonic, add, adx, and_op, control, cp, decode_inst_arithlogic-register, mnemonic_of,
  operation_field, or_op, prepared, sbx, sub, xor_op,
}
use hexheld_emu.Decode.Inst.Groups.{arithmetic_group, decode_inst-group_of, group_of}
use hexheld_emu.Decode.Rm.{set_src}
use hexheld_emu.Decode.Rm.Modes.{encode, register_direct}
use hexheld_emu.Decode.Rm.Operands.{decode_rm_specifier-source_operand, source_operand}
use hexheld_emu.Prelude.{arith, bit_and, false, ok, refl, ℕ, ◌%◌, ◌*◌, ◌+◌, ◌/◌, ◌<◌, ◌^◌, ◌≡◌}
use hexheld_emu.Types.{data_reg_imm_0_8, data_reg_p0, offset, size_16_bit, size_of_code}

-- The opcode word of the operation `op` (see `mnemonic_of`), with the first operand in register `a`
-- and the second in register `b`.
abbrev pub direct_word : ℕ → ℕ → ℕ → ℕ
direct_word op a b = 0x6000 + op / 4 * 2 ^ 11 + a * 2 ^ 8 + op % 4 * 2 ^ 6 + b * 4

-- What is decoded, for the instruction `m` and the register `b`.
abbrev pub with_operands : ℕ → PilotDecodeState → PilotDecodeState
with_operands b s =
    set_core
      (λ c. record c {
        src0 = record { location = data_reg_imm_0_8; size = size_16_bit; sign_extend = false };
        src1 = record { location = offset data_reg_p0 b; size = size_16_bit; sign_extend = false };
      })
      (record s { rm_ops = 1 })

abbrev pub direct_of : Mnemonic → ℕ → PilotDecodeState → PilotDecodeState
direct_of m b s = with_operands b (control m (prepared s))

module _ (ext : DecodeExterns) where
  rm-direct :
      (b : ℕ) (s : PilotDecodeState) (opcode : ℕ)
      → b < 8
      → bit_and opcode 0x3f ≡ encode (register_direct b)
      → arithmetic_rm ext (record s { rm_ops = 0 }) opcode size_16_bit ≡ ok (with_operands b s)
  unfolding arithmetic_rm source_operand set_src
  rm-direct b s opcode hb h =
      rw h (
        rw (decode_rm_specifier-source_operand ext s (register_direct b) false size_16_bit hb) refl)

  -- The operand count is not among what the instruction sets.
  uncounted :
      (m : Mnemonic) (s : PilotDecodeState)
      → control m (prepared (record s { rm_ops = 0 }))
        ≡ record (control m (prepared s)) { rm_ops = 0 }
  uncounted add s = refl
  uncounted adx s = refl
  uncounted sub s = refl
  uncounted sbx s = refl
  uncounted and_op s = refl
  uncounted xor_op s = refl
  uncounted or_op s = refl
  uncounted cp s = refl

  module _ (op a b : ℕ) (ho : op < 15) (ha : a < 8) (hb : b < 8) where
    in_group : group_of (direct_word op a b / 2 ^ 12) ≡ arithmetic_group
    in_group =
        let top : direct_word op a b / 2 ^ 12 ≡ 6 + op / 8 = omega arith in
        elim (dec_lt op 8) [
          | yes low ↦ let k : op / 8 ≡ 0 = omega arith in rw top (rw k refl)
          | no high ↦ let k : op / 8 ≡ 1 = omega arith in rw top (rw k refl)
        ]

    sized : opcode_size (direct_word op a b) ≡ size_16_bit
    unfolding size_of_code
    sized =
        let w = direct_word op a b in
        let code : bit_and w 0xc000 / 2 ^ 14 ≡ 1 =
          omega (arith, bit_and-shifted 14 3 w, bit_and-mask 2 (w / 2 ^ 14)) in
        rw code refl

    field : operation_field (direct_word op a b) ≡ op
    field = omega arith

    specifier : bit_and (direct_word op a b) 0x3f ≡ encode (register_direct b)
    specifier = omega (arith, bit_and-mask 6 (direct_word op a b))

    -- The word is decoded to the instruction, its first operand by the opcode's register field and
    -- its second by the register.
    pub decode_inst-direct :
        (s : PilotDecodeState)
        → s.work_regs.imm_words 0 ≡ direct_word op a b
        → decode_inst ext s ≡ ok (direct_of (mnemonic_of (op % 8)) b s)
    decode_inst-direct s h =
        let word = direct_word op a b in
        let m = mnemonic_of (op % 8) in
        rw (decode_inst-group_of ext s (rw h (omega arith))) (
          rw h (
            rw in_group (
              rw (decode_inst_arithlogic-register ext (record s { rm_ops = 0 }) word (omega arith))
                (rw sized (
                  rw field (
                    rw (uncounted m s)
                      (rm-direct b (control m (prepared s)) word hb specifier)))))))
