-- ===== src/Types/Micro.antt =====
-- pilot-cpu/types.h: the entries of the microcode and how they are called.
use hexheld_emu.Prelude.{Bool, false, true, ℕ}
use hexheld_emu.Types.Bus.{DataSizeSpec}

pub data MucodeEntryIdx : Type 0 where
  mu_none mu_ind_imm mu_ind_imm0 mu_ind_imm_rm mu_ind_imm_with_bits : MucodeEntryIdx
  mu_ind_reg mu_ind_reg_post_auto mu_ind_reg_auto mu_ind_reg_with_imm : MucodeEntryIdx
  mu_ind_reg_with_bits mu_ind_pgc_with_imm mu_ind_pgc_with_imm_rm : MucodeEntryIdx
  mu_ind_pgc_with_hml mu_ind_pgc_with_hml_rm mu_post_autoidx : MucodeEntryIdx

-- `entry_idx == MU_NONE`.
abbrev pub is_mu_none : MucodeEntryIdx → Bool
is_mu_none mu_none = true
is_mu_none _ = false

pub record MucodeEntrySpec : Type 0 where
  pub entry_idx : MucodeEntryIdx
  pub reg_select : ℕ  -- uint8_t
  pub size : DataSizeSpec
  pub is_write : Bool
