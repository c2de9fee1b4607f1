-- ===== src/Decode/Rm/Destinations.antt =====
-- pilot-cpu/cpu_decode_rm.c: what the decoder does for a second operand that is the destination of LD,
-- mode by mode and without the bit tests.
use hexheld_emu.Decode.{DecodeExterns, PilotDecodeState, read_word}
use hexheld_emu.Decode.Rm.{
  at_run_after, decode_rm_specifier, mark_second, rm_indexed, rm_mode, rm_pgc,
  rm_requires_mem_fetch, set_entry, set_mucode, set_src, set_up_fetch, src_affected,
}
use hexheld_emu.Decode.Rm.Modes.{
  AddressMode, IsMode, absolute_16, absolute_24, absolute_indexed, encode, immediate_16,
  immediate_24, pgc_16, pgc_24, post_increment, pre_decrement, register_direct, register_indexed,
  register_indirect, register_relative, short_immediate,
}
use hexheld_emu.Prelude.{
  Outcome, ap, arith, below_16, below_8, false, fault, ok, refl, true, unset_pointer, ℕ, ◌+◌, ◌>>=◌,
  ◌∙◌, ◌≡◌,
}
use hexheld_emu.Types.{
  DataSizeSpec, MucodeEntryIdx, mu_ind_imm_with_bits, mu_ind_pgc_with_imm_rm, mu_ind_reg,
  mu_ind_reg_auto, mu_ind_reg_post_auto, mu_ind_reg_with_bits, mu_ind_reg_with_imm, size_16_bit,
  size_24_bit,
}

-- The second operand is counted, and the micro-operation after the instruction is to write.
abbrev writing_after : PilotDecodeState → PilotDecodeState
writing_after t = record t {
  rm_ops = 2;
  work_regs = record t.work_regs { run_after = record t.work_regs.run_after { is_write = true } };
}

-- The micro-operation, with the register number marked as the second operand's.
abbrev plan_after : MucodeEntryIdx → ℕ → PilotDecodeState → PilotDecodeState
plan_after idx reg t = record t {
  work_regs = record t.work_regs {
    run_after = record t.work_regs.run_after { entry_idx = idx; reg_select = reg + 16 };
  };
}

-- Absolute addressing stores the width of the address, and no entry.
abbrev plan_absolute_after : DataSizeSpec → ℕ → PilotDecodeState → PilotDecodeState
plan_absolute_after width reg t = record t {
  work_regs = record t.work_regs {
    run_after = record t.work_regs.run_after { size = width; reg_select = reg + 16 };
  };
}

module _ (ext : DecodeExterns) where
  -- What is expected of each mode, from a state that has counted one operand.
  unfoldable pub dest_operand : AddressMode → PilotDecodeState → Outcome PilotDecodeState
  dest_operand (register_direct reg) t = fault unset_pointer
  dest_operand (short_immediate value) t = fault unset_pointer
  dest_operand immediate_16 t = fault unset_pointer
  dest_operand immediate_24 t = fault unset_pointer
  dest_operand (register_indirect reg) t = ok (plan_after mu_ind_reg reg (writing_after t))
  dest_operand (register_relative reg) t = ok (plan_after mu_ind_reg_with_imm reg (writing_after t))
  dest_operand (post_increment reg) t = ok (plan_after mu_ind_reg_post_auto reg (writing_after t))
  dest_operand (pre_decrement reg) t = ok (plan_after mu_ind_reg_auto reg (writing_after t))
  dest_operand absolute_16 t = ok (plan_absolute_after size_16_bit 8 (writing_after t))
  dest_operand absolute_24 t = ok (plan_absolute_after size_24_bit 0 (writing_after t))
  dest_operand pgc_16 t = read_word ext (writing_after t) >>= λ u.
      set_entry at_run_after mu_ind_pgc_with_imm_rm 8 u >>= mark_second at_run_after
  dest_operand pgc_24 t = read_word ext (writing_after t) >>= λ u.
      set_entry at_run_after mu_ind_pgc_with_imm_rm 0 u >>= λ v.
      read_word ext v >>= mark_second at_run_after
  dest_operand register_indexed t = read_word ext (writing_after t) >>= λ u.
      set_entry at_run_after mu_ind_reg_with_bits 0 u >>= mark_second at_run_after
  dest_operand absolute_indexed t = read_word ext (writing_after t) >>= λ u.
      read_word ext u >>= λ v.
      set_entry at_run_after mu_ind_imm_with_bits 0 v >>= mark_second at_run_after

  abbrev Stores : DataSizeSpec → PilotDecodeState → AddressMode → Type 0
  Stores size t mode =
      decode_rm_specifier ext (record t { rm_ops = 1 }) (encode mode) true false size
      ≡ dest_operand mode t

  mode_Stores :
      (size : DataSizeSpec) (t : PilotDecodeState) (mode : AddressMode)
      → IsMode mode
      → Stores size t mode
  unfolding decode_rm_specifier dest_operand rm_mode rm_indexed rm_pgc mark_second set_up_fetch
      rm_requires_mem_fetch set_mucode set_src src_affected
  mode_Stores size t (register_direct reg) h =
      below_8 (λ r. Stores size t (register_direct r)) refl refl refl refl refl refl refl refl reg h
  mode_Stores size t (register_indirect reg) h =
      below_8 (λ r. Stores size t (register_indirect r)) refl refl refl refl refl refl refl refl reg
        h
  mode_Stores size t (register_relative reg) h =
      below_8 (λ r. Stores size t (register_relative r)) refl refl refl refl refl refl refl refl reg
        h
  mode_Stores size t (post_increment reg) h =
      below_8 (λ r. Stores size t (post_increment r)) refl refl refl refl refl refl refl refl reg h
  mode_Stores size t (pre_decrement reg) h =
      below_8 (λ r. Stores size t (pre_decrement r)) refl refl refl refl refl refl refl refl reg h
  mode_Stores size t (short_immediate value) h =
      below_16 (λ v. Stores size t (short_immediate v)) refl refl refl refl refl refl refl refl refl
        refl refl refl refl refl refl refl value h
  mode_Stores size t pgc_16 h = ground arith
  mode_Stores size t pgc_24 h = ground arith
  mode_Stores size t register_indexed h = ground arith
  mode_Stores size t absolute_indexed h = ground arith
  mode_Stores size t _ h = refl

  -- The destination of LD, in any addressing mode, where one operand was counted.
  pub decode_rm_specifier-dest_operand :
      (t : PilotDecodeState) (mode : AddressMode) (size : DataSizeSpec)
      → IsMode mode
      → t.rm_ops ≡ 1
      → decode_rm_specifier ext t (encode mode) true false size ≡ dest_operand mode t
  decode_rm_specifier-dest_operand t mode size h one =
      ap (λ n. decode_rm_specifier ext (record t { rm_ops = n }) (encode mode) true false size) one
      ∙ mode_Stores size t mode h
