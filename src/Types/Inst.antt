-- ===== src/Types/Inst.antt =====
-- pilot-cpu/types.h: what the decode stage hands to the execute stage.
use hexheld_emu.Prelude.{Bool, ℕ}
use hexheld_emu.Types.Control.{ExecuteControlWord}
use hexheld_emu.Types.Micro.{MucodeEntrySpec}

pub data BranchCond : Type 0 where
  cond_le cond_gt cond_lt cond_ge cond_u_le cond_u_gt cond_c cond_nc : BranchCond
  cond_m cond_p cond_v cond_nv cond_z cond_nz cond_always cond_always_call : BranchCond

pub data BranchDestType : Type 0 where
  br_relative_short br_relative_long br_long br_ret br_ret_long : BranchDestType

pub record InstDecodedFlags : Type 0 where
  pub imm_words : ℕ → ℕ  -- uint16_t [5]
  pub inst_pgc : ℕ
  pub override_op : MucodeEntrySpec
  pub run_before : MucodeEntrySpec
  pub core_op : ExecuteControlWord
  pub run_after : MucodeEntrySpec
  pub auto_incr_amount : ℕ  -- int8_t
  pub branch : Bool
  pub branch_cond : BranchCond
  pub branch_dest_type : BranchDestType
  pub rm2_offset : ℕ  -- uint8_t

-- The length of `imm_words`.
abbrev pub imm_words_len : ℕ
imm_words_len = 5
