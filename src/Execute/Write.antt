-- ===== src/Execute/Write.antt =====
-- pilot-cpu/cpu_execute.c, `write_data_`: writing a destination on the data bus. No function of the
-- repository calls it.
pub mod Merge
pub mod RoundTrip
pub mod FallThrough
use hexheld_emu.Execute.{ExecuteExterns, PilotExecuteState}
use hexheld_emu.Execute.Fetch.{field_2, field_8, imm_word}
use hexheld_emu.Prelude.{Outcome, bit_and, bit_or, ok, u16, update, ℕ, ◌<<<◌, ◌>>=◌}
use hexheld_emu.Types.{
  DataBusSpecifier, data_latch_imm_0, data_latch_imm_1, data_latch_imm_2, data_latch_imm_hml,
  data_latch_imm_hml_rm, data_latch_mem_addr, data_latch_mem_data, data_latch_repi, data_latch_repr,
  data_latch_rm_1, data_latch_rm_2, data_latch_rm_hml, data_latch_sfi_1, data_latch_sfi_2,
  data_reg_f, data_reg_imm_0_8, data_reg_imm_1_2, data_reg_imm_1_8, data_reg_imm_2_8, data_reg_l0,
  data_reg_l1, data_reg_l2, data_reg_l3, data_reg_m0, data_reg_m1, data_reg_m2, data_reg_m3,
  data_reg_p0, data_reg_p1, data_reg_p2, data_reg_p3, data_reg_p4, data_reg_p5, data_reg_p6,
  data_reg_pgc, data_reg_rm_1_2, data_reg_rm_1_8, data_reg_rm_2_8, data_reg_sp, data_reg_w,
  data_reg_w0, data_reg_w1, data_reg_w2, data_reg_w3, data_reg_w4, data_reg_w5, data_reg_w6,
  data_reg_w7, data_reg_wf, data_size, data_zero,
}

abbrev pub set_reg : ℕ → ℕ → PilotExecuteState → PilotExecuteState
set_reg i v s = record s {
  sys = record s.sys { core = record s.sys.core { regs = update s.sys.core.regs i v } };
}

abbrev pub set_wf : ℕ → PilotExecuteState → PilotExecuteState
set_wf v s = record s { sys = record s.sys { core = record s.sys.core { wf = v } } }

-- `regs[i] &= keep; regs[i] |= new;`
abbrev pub merge_reg : ℕ → ℕ → ℕ → PilotExecuteState → PilotExecuteState
merge_reg i keep new s = set_reg i (bit_or (bit_and (s.sys.core.regs i) keep) new) s

-- The same for `wf`.
abbrev pub merge_wf : ℕ → ℕ → PilotExecuteState → PilotExecuteState
merge_wf keep new s = set_wf (bit_or (bit_and s.sys.core.wf keep) new) s

-- The cases from `DATA_REG_RM_1_2` upwards: none ends in a `break`, so each runs into the next.
unfoldable pub write_rm_1_2 : PilotExecuteState → ℕ → Outcome PilotExecuteState
write_rm_1_2 s v = imm_word s s.decoded_inst.rm2_offset >>= λ w. ok (set_reg (field_2 w) v s)

unfoldable pub write_rm_1_8 : PilotExecuteState → ℕ → Outcome PilotExecuteState
unfolding write_rm_1_2
write_rm_1_8 s v =
    imm_word s s.decoded_inst.rm2_offset >>= λ w. write_rm_1_2 (set_reg (field_8 w) v s) v

unfoldable pub write_imm_1_2 : PilotExecuteState → ℕ → Outcome PilotExecuteState
unfolding write_rm_1_8
write_imm_1_2 s v = imm_word s 1 >>= λ w. write_rm_1_8 (set_reg (field_2 w) v s) v

unfoldable pub write_imm_1_8 : PilotExecuteState → ℕ → Outcome PilotExecuteState
unfolding write_imm_1_2
write_imm_1_8 s v = imm_word s 1 >>= λ w. write_imm_1_2 (set_reg (field_8 w) v s) v

unfoldable pub write_imm_0_8 : PilotExecuteState → ℕ → Outcome PilotExecuteState
unfolding write_imm_1_8
write_imm_0_8 s v = imm_word s 0 >>= λ w. write_imm_1_8 (set_reg (field_8 w) v s) v

module _ (ext : ExecuteExterns) where
  unfoldable pub write_data : PilotExecuteState → DataBusSpecifier → ℕ → Outcome PilotExecuteState
  unfolding write_imm_0_8
  write_data s data_zero v = ok s
  write_data s data_size v = ok s
  write_data s data_reg_l0 v = ok (merge_reg 0 0xffff00 (bit_and v 0xff) s)
  write_data s data_reg_l1 v = ok (merge_reg 1 0xffff00 (bit_and v 0xff) s)
  write_data s data_reg_l2 v = ok (merge_reg 2 0xffff00 (bit_and v 0xff) s)
  write_data s data_reg_l3 v = ok (merge_reg 3 0xffff00 (bit_and v 0xff) s)
  write_data s data_reg_m0 v = ok (merge_reg 0 0xff00ff (bit_and v 0xff <<< 8) s)
  write_data s data_reg_m1 v = ok (merge_reg 1 0xff00ff (bit_and v 0xff <<< 8) s)
  write_data s data_reg_m2 v = ok (merge_reg 2 0xff00ff (bit_and v 0xff <<< 8) s)
  write_data s data_reg_m3 v = ok (merge_reg 3 0xff00ff (bit_and v 0xff <<< 8) s)
  write_data s data_reg_w0 v = ok (merge_reg 0 0xff0000 (bit_and v 0xffff) s)
  write_data s data_reg_w1 v = ok (merge_reg 1 0xff0000 (bit_and v 0xffff) s)
  write_data s data_reg_w2 v = ok (merge_reg 2 0xff0000 (bit_and v 0xffff) s)
  write_data s data_reg_w3 v = ok (merge_reg 3 0xff0000 (bit_and v 0xffff) s)
  write_data s data_reg_w4 v = ok (merge_reg 4 0xff0000 (bit_and v 0xffff) s)
  write_data s data_reg_w5 v = ok (merge_reg 5 0xff0000 (bit_and v 0xffff) s)
  write_data s data_reg_w6 v = ok (merge_reg 6 0xff0000 (bit_and v 0xffff) s)
  write_data s data_reg_w7 v = ok (merge_reg 7 0xff0000 (bit_and v 0xffff) s)
  write_data s data_reg_p0 v = ok (set_reg 0 (bit_and v 0xffffff) s)
  write_data s data_reg_p1 v = ok (set_reg 1 (bit_and v 0xffffff) s)
  write_data s data_reg_p2 v = ok (set_reg 2 (bit_and v 0xffffff) s)
  write_data s data_reg_p3 v = ok (set_reg 3 (bit_and v 0xffffff) s)
  write_data s data_reg_p4 v = ok (set_reg 4 (bit_and v 0xffffff) s)
  write_data s data_reg_p5 v = ok (set_reg 5 (bit_and v 0xffffff) s)
  write_data s data_reg_p6 v = ok (set_reg 6 (bit_and v 0xffffff) s)
  write_data s data_reg_sp v = ok (set_reg 7 (bit_and v 0xffffff) s)
  write_data s data_reg_f v = ok (merge_wf 0xff00 (bit_and v 0xff) s)
  write_data s data_reg_w v = ok (merge_wf 0x00ff (bit_and v 0xff <<< 8) s)
  write_data s data_reg_wf v = ok (set_wf (bit_and v 0xffff) s)
  write_data s data_reg_pgc v =
      ok (record s { sys = record s.sys { core = record s.sys.core { pgc = bit_and v 0xfffffe } } })
  write_data s data_latch_mem_addr v = ok (record s { mem_addr = v })
  write_data s data_latch_mem_data v = ok (record s { mem_data = u16 v })
  write_data s data_reg_imm_0_8 v = write_imm_0_8 s v
  write_data s data_reg_imm_1_8 v = write_imm_1_8 s v
  write_data s data_reg_imm_1_2 v = write_imm_1_2 s v
  write_data s data_reg_rm_1_8 v = write_rm_1_8 s v
  write_data s data_reg_rm_1_2 v = write_rm_1_2 s v
  write_data s data_reg_imm_2_8 v = ok s
  write_data s data_reg_rm_2_8 v = ok s
  write_data s data_latch_imm_0 v = ok s
  write_data s data_latch_imm_1 v = ok s
  write_data s data_latch_imm_2 v = ok s
  write_data s data_latch_imm_hml v = ok s
  write_data s data_latch_imm_hml_rm v = ok s
  write_data s data_latch_sfi_1 v = ok s
  write_data s data_latch_sfi_2 v = ok s
  write_data s data_latch_rm_1 v = ok s
  write_data s data_latch_rm_2 v = ok s
  write_data s data_latch_rm_hml v = ok s
  write_data s data_latch_repi v = ext.unreachable s
  write_data s data_latch_repr v = ext.unreachable s
