-- ===== src/Types/Control.antt =====
-- pilot-cpu/types.h: the execution control word, and a decoded microcode entry.
use hexheld_emu.Prelude.{Bool, ℕ}
use hexheld_emu.Types.Bus.{DataBusSpecifier, DataSizeSpec}
use hexheld_emu.Types.Micro.{MucodeEntrySpec}

pub record AluSrcControl : Type 0 where
  pub location : DataBusSpecifier
  pub size : DataSizeSpec
  pub sign_extend : Bool

pub data AluOperation : Type 0 where
  alu_off alu_add alu_and alu_or alu_xor : AluOperation

pub data ShifterMode : Type 0 where
  shifter_none shifter_left shifter_left_carry shifter_left_barrel : ShifterMode
  shifter_right_logical shifter_right_arith shifter_right_carry shifter_right_barrel : ShifterMode

pub data FlagCMode : Type 0 where
  flag_c_alu_carry flag_c_shifter_carry : FlagCMode

pub data FlagVMode : Type 0 where
  flag_v_normal flag_v_shifter_carry flag_v_clear : FlagVMode

pub data MemLatchCtl : Type 0 where
  mem_no_latch mem_latch_half1 mem_latch_half2 mem_latch_half2_mar : MemLatchCtl

pub data MemWriteCtl : Type 0 where
  mem_read_ctl mem_write_from_src1 mem_write_from_dest mem_write_from_mdr : MemWriteCtl

-- The array `srcs[2]` is the fields `src0` and `src1`.
pub record ExecuteControlWord : Type 0 where
  pub src0 : AluSrcControl
  pub src1 : AluSrcControl
  pub dest : DataBusSpecifier
  pub operation : AluOperation
  pub src2_add_carry : Bool
  pub src2_negate : Bool
  pub src2_add1 : Bool
  pub shifter_mode : ShifterMode
  pub flag_write_mask : ℕ  -- uint8_t
  pub invert_carries : Bool
  pub flag_c_mode : FlagCMode
  pub flag_d : Bool
  pub flag_v_mode : FlagVMode
  pub mem_latch_ctl : MemLatchCtl
  pub mem_access_suppress : Bool
  pub mem_write_ctl : MemWriteCtl
  pub mem_size : DataSizeSpec  -- declared bool, assigned a size

pub record MucodeEntry : Type 0 where
  pub operation : ExecuteControlWord
  pub next : MucodeEntrySpec
