-- ===== src/Decode/Inst.antt =====
-- pilot-cpu/cpu_decode.c: the groups of instructions, and the dispatch on the opcode word.
pub mod Groups
pub mod Branches
pub mod Arithmetic
pub mod Direct
pub mod Loads
pub mod LoadPairs
use hexheld_emu.Decode.{DecodeExterns, PilotDecodeState, report_invalid, set_core}
use hexheld_emu.Decode.Rm.{decode_rm_specifier}
use hexheld_emu.Prelude.{
  Bool, Outcome, bit_and, bit_or, false, if◌then◌else◌, leb, not, ok, true, u8, ℕ, ◌&&◌, ◌==◌,
  ◌>>=◌, ◌>>>◌, ◌>>◌, ◌||◌,
}
use hexheld_emu.System.{f_carry, f_extend, f_neg, f_overflow, f_zero}
use hexheld_emu.Types.{
  AluOperation, DataSizeSpec, alu_add, alu_and, alu_or, alu_xor, data_latch_imm_0, data_latch_imm_1,
  data_latch_imm_hml, data_reg_imm_0_8, data_zero, flag_v_normal, shifter_none, size_24_bit,
  size_8_bit, size_of_code,
}

-- The masks of flags that the arithmetic and the logic instructions write.
abbrev pub logic_flags : ℕ
logic_flags = bit_or f_neg (bit_or f_zero (bit_or f_overflow f_carry))

abbrev pub arithmetic_flags : ℕ
arithmetic_flags = bit_or logic_flags f_extend

-- `(data_size_spec) ((opcode & 0xc000) >> 14)`.
abbrev pub opcode_size : ℕ → DataSizeSpec
opcode_size opcode = size_of_code (bit_and opcode 0xc000 >>> 14)

-- The four assignments of each case of the arithmetic switches.
abbrev pub operate : AluOperation → Bool → Bool → ℕ → PilotDecodeState → PilotDecodeState
operate op carry negate mask = set_core λ c. record c {
  operation = op;
  src2_add_carry = carry;
  src2_negate = negate;
  flag_write_mask = mask;
}

-- `operation` of the outer switch.
abbrev pub operation_code : ℕ → ℕ
operation_code opcode = bit_or (bit_and opcode 0x00c0 >>> 6) (bit_and opcode 0x1800 >>> 9)

module _ (ext : DecodeExterns) where
  unfoldable pub decode_inst_branch : PilotDecodeState → ℕ → Outcome PilotDecodeState
  decode_inst_branch s opcode =
      if bit_and opcode 0xff00 == 0xff00
      then ext.not_implemented s
      else if bit_and opcode 0xffe0 == 0xfe00
      then ext.not_implemented s
      else if bit_and opcode 0xf800 == 0xf000
      then (if bit_and opcode 0xff == 0
          then ext.not_implemented s
          else if not (bit_and opcode 0x80 == 0)
          then ext.not_implemented s
          else report_invalid ext s)
      else if bit_and opcode 0x0700 == 0x0000
      then ext.not_implemented s
      else if bit_and opcode 0x0700 == 0x0100
      then ext.not_implemented s
      else if bit_and opcode 0x0700 == 0x0200
      then (if bit_and opcode 0x01c0 == 0x0000
          then ext.not_implemented s
          else if bit_and opcode 0x01c0 == 0x0040
          then ext.not_implemented s
          else if bit_and opcode 0x01c0 == 0x0100
          then ext.not_implemented_undeclared s
          else if bit_and opcode 0x01c0 == 0x0140
          then ext.not_implemented_undeclared s
          else report_invalid ext s)
      else report_invalid ext s

  unfoldable pub decode_inst_bit : PilotDecodeState → ℕ → Outcome PilotDecodeState
  decode_inst_bit s opcode = ext.not_implemented s

  unfoldable pub decode_inst_other : PilotDecodeState → ℕ → Outcome PilotDecodeState
  decode_inst_other s opcode = ext.not_implemented s

  -- The inner switch, of the immediate forms; `operation` is below 8 there.
  unfoldable pub immediate_operation : ℕ → PilotDecodeState → Outcome PilotDecodeState
  immediate_operation op s =
      if leb op 3
      then ok
          (operate alu_add (not (bit_and op 1 == 0)) (not (bit_and op 2 == 0)) arithmetic_flags s)
      else if op == 4
      then ok (operate alu_and false false logic_flags s)
      else if op == 5
      then ok (operate alu_xor false false logic_flags s)
      else if op == 6
      then ok (operate alu_or false false logic_flags s)
      else if op == 7
      then ok (operate alu_add false true logic_flags s)
      else ext.unreachable s

  -- The outer switch. It yields the state, `uses_imm` and `operation`. The immediate case has no
  -- `break`, and runs into the default.
  unfoldable pub arithmetic_operation :
      ℕ → ℕ → PilotDecodeState → Outcome (PilotDecodeState × Bool × ℕ)
  arithmetic_operation opcode op s =
      if leb op 3 || (leb 8 op && leb op 11)
      then ok (
        operate alu_add (not (bit_and op 1 == 0)) (not (bit_and op 2 == 0)) arithmetic_flags s,
        false,
        op,
      )
      else if op == 4 || op == 12
      then ok (operate alu_and false false logic_flags s, false, op)
      else if op == 5 || op == 13
      then ok (operate alu_xor false false logic_flags s, false, op)
      else if op == 6 || op == 14
      then ok (operate alu_or false false logic_flags s, false, op)
      else if op == 7
      then ok (operate alu_add false true logic_flags s, false, op)
      else if op == 15
      then (let inner = bit_and opcode 0x0700 >>> 8 in
          immediate_operation inner s >>= λ s1. ext.unreachable s1 >>= λ s2. ok (s2, true, inner))
      else (ext.unreachable s >>= λ s1. ok (s1, false, op))

  -- "from RM src".
  unfoldable pub arithmetic_rm : PilotDecodeState → ℕ → DataSizeSpec → Outcome PilotDecodeState
  arithmetic_rm s opcode size = do
    s1 ← decode_rm_specifier ext s (bit_and opcode 0x003f) false false size
    ok (
        set_core
          (λ c. record c {
            src1 = record c.src1 { sign_extend = false };
            src0 = record { location = data_reg_imm_0_8; size = size; sign_extend = false };
          })
          s1)

  -- "from immediate src".
  unfoldable pub arithmetic_imm : PilotDecodeState → ℕ → ℕ → DataSizeSpec → Outcome PilotDecodeState
  arithmetic_imm s opcode op size = do
    s1 ← decode_rm_specifier ext s (bit_and opcode 0x003f) true true size
    ok (
        set_core
          (λ c. record c {
            src0 = record c.src0 { sign_extend = false };
            src1 = record { location = data_latch_imm_1; size = size; sign_extend = false };
            dest = if op == 7 then data_zero else c.dest;
          })
          s1)

  unfoldable pub decode_inst_arithlogic : PilotDecodeState → ℕ → Outcome PilotDecodeState
  decode_inst_arithlogic s opcode =
      let size = opcode_size opcode in
      let s1 =
        set_core
          (λ c. record c {
            shifter_mode = shifter_none;
            src2_add1 = false;
            flag_v_mode = flag_v_normal;
          })
          s in
      do
        (s2, uses_imm, op) ← arithmetic_operation opcode (operation_code opcode) s1
        if not uses_imm then arithmetic_rm s2 opcode size else arithmetic_imm s2 opcode op size

  unfoldable pub decode_inst_ld_other : PilotDecodeState → ℕ → Outcome PilotDecodeState
  decode_inst_ld_other s opcode =
      let s1 =
        set_core
          (λ c. record c {
            src2_add1 = false;
            src2_add_carry = false;
            src2_negate = false;
            flag_write_mask = 0;
            flag_v_mode = flag_v_normal;
            src0 = record c.src0 { location = data_zero; size = size_24_bit };
            operation = alu_or;
            dest = data_reg_imm_0_8;
            shifter_mode = shifter_none;
          })
          s in
      if bit_and opcode 0x0800 == 0x0000
      then ok (
          set_core
            (λ c. record c {
              src1 = record {
                location = data_latch_imm_hml;
                size = size_24_bit;
                sign_extend = false;
              };
            })
            s1)
      else ok (
          set_core
            (λ c. record c {
              src1 = record { location = data_latch_imm_0; size = size_8_bit; sign_extend = true };
            })
            s1)

  -- "one RM specifier": LDSX and LEA.
  unfoldable pub ld_one_rm : PilotDecodeState → ℕ → DataSizeSpec → Outcome PilotDecodeState
  ld_one_rm s opcode size =
      let s1 =
        set_core
          (λ c. record c { src0 = record c.src0 { size = size_24_bit }; dest = data_reg_imm_0_8 })
          s in
      let s2 =
        if bit_and opcode 0x8800 == 0x0800
        then set_core (λ c. record c { src1 = record c.src1 { sign_extend = true } }) s1
        else s1 in
      let dummy_rm = u8 (bit_and opcode 0x0f80 >>> 12) in
      do
        s3 ←
            if bit_and opcode 0xf800 == 0x9800
            then decode_rm_specifier ext s2 dummy_rm true false size
            else ok s2
        decode_rm_specifier ext s3 (bit_and opcode 0x3f) false false size

  -- "LD (two RM specifiers)".
  unfoldable pub ld_two_rm : PilotDecodeState → ℕ → DataSizeSpec → Outcome PilotDecodeState
  ld_two_rm s opcode size = do
    s1 ← decode_rm_specifier ext s (bit_and opcode 0x3f) false false size
    decode_rm_specifier ext s1 (bit_and (opcode >>> 6) 0x3f) true false size

  unfoldable pub decode_inst_ld_group : PilotDecodeState → ℕ → Outcome PilotDecodeState
  decode_inst_ld_group s opcode =
      let size = opcode_size opcode in
      let s1 =
        set_core
          (λ c. record c {
            src2_add1 = false;
            src2_add_carry = false;
            src2_negate = false;
            flag_write_mask = 0;
            flag_v_mode = flag_v_normal;
            src0 = record c.src0 { location = data_zero; size = size };
            operation = alu_or;
            shifter_mode = shifter_none;
          })
          s in
      if bit_and opcode 0x00c0 == 0x00c0 then ld_one_rm s1 opcode size else ld_two_rm s1 opcode size

  unfoldable pub decode_inst : PilotDecodeState → Outcome PilotDecodeState
  decode_inst s =
      let s1 = record s { rm_ops = 0 } in
      let opcode = s1.work_regs.imm_words 0 in
      if leb 0xe000 (bit_and opcode 0xf000)
      then decode_inst_branch s1 opcode
      else if bit_and opcode 0xf000 == 0xd000
      then decode_inst_bit s1 opcode
      else if bit_and opcode 0xf000 == 0xc000
      then decode_inst_ld_other s1 opcode
      else if bit_and opcode 0x2000 == 0x2000
      then decode_inst_arithlogic s1 opcode
      else if bit_and opcode 0x3000 == 0x1000
      then decode_inst_ld_group s1 opcode
      else if bit_and opcode 0x3000 == 0x0000
      then decode_inst_other s1 opcode
      else ok s1
