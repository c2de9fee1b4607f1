-- ===== src/Mucode.antt =====
-- pilot-cpu/cpu_mucode.c: the decoder of microcode entries.
pub mod Entries
pub mod Chain
pub mod Defined
use hexheld_emu.Mucode.Entries.{
  base_entry, ind_1cyc_imm, ind_1cyc_imm_rm, ind_1cyc_imm0, ind_1cyc_reg, ind_1cyc_reg_post_auto,
  ind_1cyc_reg_auto, ind_2cyc_withimm, ind_2cyc_imm_withbits, ind_2cyc_reg_withbits,
  ind_2cyc_pgc_withimm, ind_2cyc_pgc_withimm_rm, ind_2cyc_pgc_withhml, ind_2cyc_pgc_withhml_rm,
  after_autoidx,
}
use hexheld_emu.Prelude.{Outcome, ok, ◌>>=◌, ◌>>◌}
use hexheld_emu.Types.{
  MucodeEntry, MucodeEntryIdx, MucodeEntrySpec, mu_ind_imm, mu_ind_imm0, mu_ind_imm_rm,
  mu_ind_imm_with_bits, mu_ind_pgc_with_hml, mu_ind_pgc_with_hml_rm, mu_ind_pgc_with_imm,
  mu_ind_pgc_with_imm_rm, mu_ind_reg, mu_ind_reg_auto, mu_ind_reg_post_auto, mu_ind_reg_with_bits,
  mu_ind_reg_with_imm, mu_none, mu_post_autoidx,
}

-- The `switch` on the entry. Its default calls `decode_unreachable_`, which is not in the
-- repository: `unreachable` is what that does to the caller's state.
module _ {S : Type 0} (unreachable : S → Outcome S) (junk : MucodeEntry) where
  dispatch : MucodeEntryIdx → MucodeEntrySpec → S → Outcome (S × MucodeEntry)
  unfolding ind_1cyc_imm ind_1cyc_imm_rm ind_1cyc_imm0 ind_1cyc_reg ind_1cyc_reg_post_auto
      ind_1cyc_reg_auto ind_2cyc_withimm ind_2cyc_imm_withbits ind_2cyc_reg_withbits
      ind_2cyc_pgc_withimm ind_2cyc_pgc_withimm_rm ind_2cyc_pgc_withhml ind_2cyc_pgc_withhml_rm
      after_autoidx base_entry
  dispatch mu_ind_imm spec s = ok (s, ind_1cyc_imm junk spec)
  dispatch mu_ind_imm_rm spec s = ok (s, ind_1cyc_imm_rm junk spec)
  dispatch mu_ind_reg spec s = ok (s, ind_1cyc_reg junk spec)
  dispatch mu_ind_reg_post_auto spec s = ok (s, ind_1cyc_reg_post_auto junk spec)
  dispatch mu_ind_reg_auto spec s = ok (s, ind_1cyc_reg_auto junk spec)
  dispatch mu_ind_reg_with_imm spec s = ok (s, ind_2cyc_withimm junk spec)
  dispatch mu_ind_imm0 spec s = ok (s, ind_1cyc_imm0 junk spec)
  dispatch mu_ind_imm_with_bits spec s = ok (s, ind_2cyc_imm_withbits junk spec)
  dispatch mu_ind_reg_with_bits spec s = ok (s, ind_2cyc_reg_withbits junk spec)
  dispatch mu_ind_pgc_with_imm spec s = ok (s, ind_2cyc_pgc_withimm junk spec)
  dispatch mu_ind_pgc_with_imm_rm spec s = ok (s, ind_2cyc_pgc_withimm_rm junk spec)
  dispatch mu_ind_pgc_with_hml spec s = ok (s, ind_2cyc_pgc_withhml junk spec)
  dispatch mu_ind_pgc_with_hml_rm spec s = ok (s, ind_2cyc_pgc_withhml_rm junk spec)
  dispatch mu_post_autoidx spec s = ok (s, after_autoidx junk spec)
  dispatch mu_none spec s = do s' ← unreachable s; ok (s', base_entry junk spec)

  unfoldable pub decode_mucode_entry : MucodeEntrySpec → S → Outcome (S × MucodeEntry)
  unfolding dispatch
  decode_mucode_entry spec s = dispatch spec.entry_idx spec s
