-- ===== src/Decode/Inst/Groups.antt =====
-- pilot-cpu/cpu_decode.c, `decode_inst_`: the opcode map by the top four bits of the opcode word.
use hexheld_emu.Bits.{bit_and-mask, bit_and-shifted}
use hexheld_emu.Decode.{DecodeExterns, PilotDecodeState}
use hexheld_emu.Decode.Inst.{
  decode_inst, decode_inst_arithlogic, decode_inst_bit, decode_inst_branch, decode_inst_ld_group,
  decode_inst_ld_other, decode_inst_other, opcode_size,
}
use hexheld_emu.Prelude.{
  Outcome, arith, below_16, bit_and, if◌then◌else◌, leb, ok, refl, suc, zero, ℕ, ◌%◌, ◌*◌, ◌/◌, ◌<◌,
  ◌==◌, ◌^◌, ◌≡◌, ◌≢◌, ◌≤◌, ◌⊎◌,
}
use hexheld_emu.Types.{size_code_3, size_of_code}

pub data Group : Type 0 where
  branch_group bit_group ld_other_group arithmetic_group ld_group other_group : Group

-- The map, by the top two bits (the size, or 3 for the special groups) and the next two.
abbrev pub plain_group : ℕ → Group
plain_group zero = other_group
plain_group (suc zero) = ld_group
plain_group (suc (suc n)) = arithmetic_group

abbrev pub special_group : ℕ → Group
special_group zero = ld_other_group
special_group (suc zero) = bit_group
special_group (suc (suc n)) = branch_group

abbrev pub group_of : ℕ → Group
group_of nibble = if nibble / 4 == 3 then special_group (nibble % 4) else plain_group (nibble % 4)

module _ (ext : DecodeExterns) where
  abbrev pub run_group : Group → PilotDecodeState → ℕ → Outcome PilotDecodeState
  run_group branch_group s opcode = decode_inst_branch ext s opcode
  run_group bit_group s opcode = decode_inst_bit ext s opcode
  run_group ld_other_group s opcode = decode_inst_ld_other ext s opcode
  run_group arithmetic_group s opcode = decode_inst_arithlogic ext s opcode
  run_group ld_group s opcode = decode_inst_ld_group ext s opcode
  run_group other_group s opcode = decode_inst_other ext s opcode

  -- The chain of tests on the top four bits.
  abbrev chain : PilotDecodeState → ℕ → ℕ → Outcome PilotDecodeState
  chain s opcode q =
      if leb 0xe000 (bit_and q 15 * 2 ^ 12)
      then decode_inst_branch ext s opcode
      else if bit_and q 15 * 2 ^ 12 == 0xd000
      then decode_inst_bit ext s opcode
      else if bit_and q 15 * 2 ^ 12 == 0xc000
      then decode_inst_ld_other ext s opcode
      else if bit_and q 2 * 2 ^ 12 == 0x2000
      then decode_inst_arithlogic ext s opcode
      else if bit_and q 3 * 2 ^ 12 == 0x1000
      then decode_inst_ld_group ext s opcode
      else if bit_and q 3 * 2 ^ 12 == 0x0000
      then decode_inst_other ext s opcode
      else ok s

  chain-group_of :
      (s : PilotDecodeState) (opcode q : ℕ)
      → q < 16
      → chain s opcode q ≡ run_group (group_of q) s opcode
  chain-group_of s opcode =
      below_16 (λ q. chain s opcode q ≡ run_group (group_of q) s opcode) refl refl refl refl refl
        refl refl refl refl refl refl refl refl refl refl refl

  -- Every 16-bit opcode word is decoded by the function of its group, with no operand counted.
  pub decode_inst-group_of :
      (s : PilotDecodeState)
      → s.work_regs.imm_words 0 < 2 ^ 16
      → let opcode = s.work_regs.imm_words 0 in
        decode_inst ext s ≡ run_group (group_of (opcode / 2 ^ 12)) (record s { rm_ops = 0 }) opcode
  unfolding decode_inst
  decode_inst-group_of s h =
      let opcode = s.work_regs.imm_words 0 in
      rw (bit_and-shifted 12 15 opcode, bit_and-shifted 12 2 opcode, bit_and-shifted 12 3 opcode)
        (chain-group_of (record s { rm_ops = 0 }) opcode (opcode / 2 ^ 12) (omega arith))

-- Only 3 and above are no size.
size_of_code-invalid : (n : ℕ) → size_of_code n ≡ size_code_3 → 3 ≤ n
unfolding size_of_code
size_of_code-invalid zero h = cc
size_of_code-invalid (suc zero) h = cc
size_of_code-invalid (suc (suc zero)) h = cc
size_of_code-invalid (suc (suc (suc n))) h = omega arith

special_group_sizeless :
    (n : ℕ) → (special_group n ≡ arithmetic_group) ⊎ (special_group n ≡ ld_group) → ⊥
special_group_sizeless zero h = ground arith
special_group_sizeless (suc zero) h = ground arith
special_group_sizeless (suc (suc n)) h = ground arith

-- The two groups that read a size from the opcode never see the bit pattern that is no size.
pub opcode_size-group_of :
    (opcode : ℕ)
    → opcode < 2 ^ 16
    → (group_of (opcode / 2 ^ 12) ≡ arithmetic_group) ⊎ (group_of (opcode / 2 ^ 12) ≡ ld_group)
    → opcode_size opcode ≢ size_code_3
opcode_size-group_of opcode h g e =
    let top : 3 ≤ bit_and opcode 0xc000 / 2 ^ 14 = size_of_code-invalid _ e in
    let special : opcode / 2 ^ 12 / 4 ≡ 3 =
      omega (arith, bit_and-shifted 14 3 opcode, bit_and-mask 2 (opcode / 2 ^ 14)) in
    special_group_sizeless (opcode / 2 ^ 12 % 4) (rw special at g)
