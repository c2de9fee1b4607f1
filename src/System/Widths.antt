-- ===== src/System/Widths.antt =====
-- pilot-cpu/cpu_regs.h, cpu_interconnect.h, pilot.h and types.h: the widths of the variables of the
-- machine and of an instruction. A `size_t` is taken to have 64 bits.
use hexheld_emu.Prelude.{ℕ, ◌<◌, ◌^◌}
use hexheld_emu.System.{PilotSystem, hram_len}
use hexheld_emu.Types.{InstDecodedFlags, imm_words_len}

-- The variables of the machine are in the ranges of their C types.
pub record MachineFits (sys : PilotSystem) : Type 0 where
  pub regs : (r : ℕ) → r < 8 → sys.core.regs r < 2 ^ 32
  pub wf : sys.core.wf < 2 ^ 16
  pub pgc : sys.core.pgc < 2 ^ 32
  pub repi : sys.core.repi < 2 ^ 8
  pub repr : sys.core.repr < 2 ^ 8
  pub addr_reg : sys.memctl.addr_reg < 2 ^ 32
  pub data_reg_in : sys.memctl.data_reg_in < 2 ^ 16
  pub data_reg_out : sys.memctl.data_reg_out < 2 ^ 16
  pub wait : sys.memctl.wait_cycles_left < 2 ^ 64
  pub branch_k : sys.interconnects.execute_branch_k < 2 ^ 8
  pub branch_addr : sys.interconnects.execute_branch_addr < 2 ^ 16
  pub hram : (i : ℕ) → i < hram_len → sys.hram i < 2 ^ 8

-- The variables of an instruction are; of `auto_incr_amount` it is the byte.
pub record InstFits (w : InstDecodedFlags) : Type 0 where
  pub words : (i : ℕ) → i < imm_words_len → w.imm_words i < 2 ^ 16
  pub inst_pgc : w.inst_pgc < 2 ^ 32
  pub over : w.override_op.reg_select < 2 ^ 8
  pub before : w.run_before.reg_select < 2 ^ 8
  pub after : w.run_after.reg_select < 2 ^ 8
  pub mask : w.core_op.flag_write_mask < 2 ^ 8
  pub increment : w.auto_incr_amount < 2 ^ 8
  pub second : w.rm2_offset < 2 ^ 8
