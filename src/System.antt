-- ===== src/System.antt =====
-- pilot-cpu/cpu_regs.h, cpu_interconnect.h and pilot.h: the registers, the lines between the
-- stages, the memory controller's latches, and the whole machine.
pub mod Widths
use hexheld_emu.Prelude.{Bool, ℕ}

pub record PilotCpuRegs : Type 0 where
  pub regs : ℕ → ℕ  -- uint32_t [8]
  pub wf : ℕ  -- uint16_t
  pub pgc : ℕ  -- uint32_t
  pub repi : ℕ  -- uint8_t
  pub repr : ℕ  -- uint8_t

abbrev pub f_extend : ℕ
f_extend = 0x01

abbrev pub f_decimal : ℕ
f_decimal = 0x02

abbrev pub f_overflow : ℕ
f_overflow = 0x04

abbrev pub f_carry : ℕ
f_carry = 0x08

abbrev pub f_zero : ℕ
f_zero = 0x40

abbrev pub f_neg : ℕ
f_neg = 0x80

-- `decoded_inst` is an address: what it points to is read through a view of the memory.
pub record PilotInterconnect : Type 0 where
  pub fetch_word_semaph : Bool
  pub fetch_branch : Bool
  pub decoded_inst_semaph : Bool
  pub decoded_inst : ℕ
  pub execute_branch : Bool
  pub execute_branch_k : ℕ  -- uint8_t
  pub execute_branch_addr : ℕ  -- uint16_t
  pub execute_memory_backoff : Bool

pub data MemctlState : Type 0 where
  mctl_ready mctl_mem_r_busy mctl_mem_w_busy mctl_data_latched : MemctlState

pub record PilotMemctl : Type 0 where
  pub state : MemctlState
  pub data_valid : Bool
  pub wait_cycles_left : ℕ
  pub addr_reg : ℕ  -- uint32_t
  pub data_reg_in : ℕ  -- uint16_t
  pub data_reg_out : ℕ  -- uint16_t

pub record PilotSystem : Type 0 where
  pub core : PilotCpuRegs
  pub memctl : PilotMemctl
  pub interconnects : PilotInterconnect
  pub hram : ℕ → ℕ  -- uint8_t [0xc00]

-- The length of `hram`.
abbrev pub hram_len : ℕ
hram_len = 0xc00
