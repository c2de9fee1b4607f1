-- ===== src/Decode/Inst/Arithmetic.antt =====
-- pilot-cpu/cpu_decode.c, `decode_inst_arithlogic_`: the operation that an opcode selects.
use mathlib.Core.Path.{subst}
use native.Mathlib.Decide.{dec_lt}
use hexheld_emu.Bits.{bit_and-mask, bit_and-shifted, bit_or-low}
use hexheld_emu.Decode.{DecodeExterns, PilotDecodeState, set_core}
use hexheld_emu.Decode.Inst.{
  arithmetic_imm, arithmetic_operation, arithmetic_rm, decode_inst_arithlogic, immediate_operation,
  opcode_size, operate, operation_code,
}
use hexheld_emu.Prelude.{
  >>=_assoc, arith, below_8, bit_and, false, ok, refl, suc, true, zero, ℕ, ◌%◌, ◌*◌, ◌+◌, ◌-◌, ◌/◌,
  ◌<◌, ◌>>=◌, ◌^◌, ◌≡◌,
}
use hexheld_emu.Types.{alu_add, alu_and, alu_or, alu_xor, flag_v_normal, shifter_none}

-- The operation field of the opcode word, by arithmetic: the bits 11 and 12, then 6 and 7.
abbrev pub operation_field : ℕ → ℕ
operation_field opcode = opcode / 2 ^ 11 % 4 * 4 + opcode / 2 ^ 6 % 4

pub operation_code-operation_field : (opcode : ℕ) → operation_code opcode ≡ operation_field opcode
operation_code-operation_field opcode =
    let low : bit_and opcode 0x00c0 / 2 ^ 6 ≡ opcode / 2 ^ 6 % 4 =
      omega (arith, bit_and-shifted 6 3 opcode, bit_and-mask 2 (opcode / 2 ^ 6)) in
    let high : bit_and opcode 0x1800 / 2 ^ 9 ≡ opcode / 2 ^ 11 % 4 * 2 ^ 2 =
      omega (arith, bit_and-shifted 11 3 opcode, bit_and-mask 2 (opcode / 2 ^ 11)) in
    rw (low, high) (bit_or-low 2 (opcode / 2 ^ 11 % 4) (opcode / 2 ^ 6 % 4) (omega arith))

-- The instructions, in the order of their codes.
pub data Mnemonic : Type 0 where
  add adx sub sbx and_op xor_op or_op cp : Mnemonic

abbrev pub mnemonic_of : ℕ → Mnemonic
mnemonic_of zero = add
mnemonic_of (suc zero) = adx
mnemonic_of (suc (suc zero)) = sub
mnemonic_of (suc (suc (suc zero))) = sbx
mnemonic_of (suc (suc (suc (suc zero)))) = and_op
mnemonic_of (suc (suc (suc (suc (suc zero))))) = xor_op
mnemonic_of (suc (suc (suc (suc (suc (suc zero)))))) = or_op
mnemonic_of _ = cp

-- What each instruction asks of the ALU: the operation, whether the carry is added to the second
-- operand, whether that is negated, and the flags that are written.
abbrev pub control : Mnemonic → PilotDecodeState → PilotDecodeState
control add = operate alu_add false false 0xcd
control adx = operate alu_add true false 0xcd
control sub = operate alu_add false true 0xcd
control sbx = operate alu_add true true 0xcd
control and_op = operate alu_and false false 0xcc
control xor_op = operate alu_xor false false 0xcc
control or_op = operate alu_or false false 0xcc
control cp = operate alu_add false true 0xcc

-- What every arithmetic instruction sets first.
abbrev pub prepared : PilotDecodeState → PilotDecodeState
prepared =
    set_core
      λ c. record c { shifter_mode = shifter_none; src2_add1 = false; flag_v_mode = flag_v_normal }

-- The operation field of the immediate forms.
inner_field : (opcode : ℕ) → bit_and opcode 0x0700 / 2 ^ 8 ≡ opcode / 2 ^ 8 % 8
inner_field opcode = omega (arith, bit_and-shifted 8 7 opcode, bit_and-mask 3 (opcode / 2 ^ 8))

module _ (ext : DecodeExterns) where
  -- A switch that gives `m`, without or with the immediate's fall into the default.
  abbrev Selects : ℕ → PilotDecodeState → ℕ → Type 0
  Selects opcode s op =
      arithmetic_operation ext opcode op s ≡ ok (control (mnemonic_of (op % 8)) s, false, op)

  register_operation : (opcode : ℕ) (s : PilotDecodeState) (op : ℕ) → op < 15 → Selects opcode s op
  unfolding arithmetic_operation
  register_operation opcode s op h = elim (dec_lt op 8) [
    | yes low ↦ below_8 (Selects opcode s) refl refl refl refl refl refl refl refl op low
    | no high ↦ subst (Selects opcode s) (omega arith) (
        below_8 (λ k. k < 7 → Selects opcode s (k + 8)) (λ _. refl) (λ _. refl) (λ _. refl)
          (λ _. refl) (λ _. refl) (λ _. refl) (λ _. refl) (λ k. absurd (omega arith)) (op - 8)
          (omega arith) (omega arith))
  ]

  immediate_operation-control :
      (s : PilotDecodeState) (op : ℕ)
      → op < 8
      → immediate_operation ext op s ≡ ok (control (mnemonic_of op) s)
  unfolding immediate_operation
  immediate_operation-control s =
      below_8 (λ k. immediate_operation ext k s ≡ ok (control (mnemonic_of k) s)) refl refl refl
        refl refl refl refl refl

  immediate_case :
      (opcode : ℕ) (s : PilotDecodeState)
      → let k = opcode / 2 ^ 8 % 8 in
        arithmetic_operation ext opcode 15 s
        ≡ (ext.unreachable (control (mnemonic_of k) s) >>= λ t. ok (t, true, k))
  unfolding arithmetic_operation
  immediate_case opcode s =
      rw (inner_field opcode, immediate_operation-control s (opcode / 2 ^ 8 % 8) (omega arith))

  -- A register form, with an operation field below 15: the instruction of the table, then its RM
  -- operand, with the size field of the opcode. No external function but the word reads is called.
  pub decode_inst_arithlogic-register :
      (s : PilotDecodeState) (opcode : ℕ)
      → operation_field opcode < 15
      → decode_inst_arithlogic ext s opcode
        ≡ arithmetic_rm ext
            (control (mnemonic_of (operation_field opcode % 8)) (prepared s))
            opcode
            (opcode_size opcode)
  unfolding decode_inst_arithlogic
  decode_inst_arithlogic-register s opcode h =
      rw
        (
          operation_code-operation_field opcode,
          register_operation opcode (prepared s) (operation_field opcode) h,
        )
        refl

  -- An immediate form, with the operation field 15: the switch falls through into its default, so
  -- that `decode_unreachable_` is called on the way to the operands.
  pub decode_inst_arithlogic-immediate :
      (s : PilotDecodeState) (opcode : ℕ)
      → operation_field opcode ≡ 15
      → decode_inst_arithlogic ext s opcode ≡ (
          ext.unreachable (control (mnemonic_of (opcode / 2 ^ 8 % 8)) (prepared s)) >>= λ t.
          arithmetic_imm ext t opcode (opcode / 2 ^ 8 % 8) (opcode_size opcode))
  unfolding decode_inst_arithlogic
  decode_inst_arithlogic-immediate s opcode h =
      rw (operation_code-operation_field opcode, h, immediate_case opcode (prepared s))
        (>>=_assoc (ext.unreachable _) _ _)
