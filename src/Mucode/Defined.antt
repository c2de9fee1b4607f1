-- ===== src/Mucode/Defined.antt =====
-- pilot-cpu/cpu_mucode.c: which fields of a decoded entry are assigned, and which keep what the
-- uninitialised local variable held.
use hexheld_emu.Mucode.{decode_mucode_entry, dispatch}
use hexheld_emu.Mucode.Entries.{write_ctl_of}
use hexheld_emu.Prelude.{Bool, Outcome, arith, false, if◌then◌else◌, ok, refl, true, ◌≡◌}
use hexheld_emu.Types.{
  DataSizeSpec, MucodeEntry, MucodeEntryIdx, MucodeEntrySpec, is_mu_none, mu_ind_imm, mu_ind_imm0,
  mu_ind_imm_rm, mu_ind_reg, mu_ind_reg_auto, mu_ind_reg_post_auto, mu_ind_reg_with_imm, mu_none,
  mu_post_autoidx, size_code_3,
}

-- The size is one of the three enumerators.
abbrev pub is_known : DataSizeSpec → Bool
is_known size_code_3 = false
is_known _ = true

-- The fields that every entry but `MU_NONE` determines.
pub record SameAssigned (a b : MucodeEntry) : Type 0 where
  pub next : a.next ≡ b.next
  pub src0 : a.operation.src0 ≡ b.operation.src0
  pub size1 : a.operation.src1.size ≡ b.operation.src1.size
  pub sign1 : a.operation.src1.sign_extend ≡ b.operation.src1.sign_extend
  pub dest : a.operation.dest ≡ b.operation.dest
  pub operation : a.operation.operation ≡ b.operation.operation
  pub shifter : a.operation.shifter_mode ≡ b.operation.shifter_mode
  pub latch : a.operation.mem_latch_ctl ≡ b.operation.mem_latch_ctl
  pub suppress : a.operation.mem_access_suppress ≡ b.operation.mem_access_suppress

-- The entries that assign `mem_write_ctl`.
abbrev pub sets_write_ctl : MucodeEntryIdx → Bool
sets_write_ctl mu_ind_imm = true
sets_write_ctl mu_ind_imm0 = true
sets_write_ctl mu_ind_imm_rm = true
sets_write_ctl mu_ind_reg = true
sets_write_ctl mu_ind_reg_post_auto = true
sets_write_ctl mu_ind_reg_auto = true
sets_write_ctl mu_post_autoidx = true
sets_write_ctl mu_ind_reg_with_imm = true
sets_write_ctl _ = false

module _ {S : Type 0} (unreachable : S → Outcome S) where
  dispatch-SameAssigned :
      (idx : MucodeEntryIdx) (size : DataSizeSpec) (j k : MucodeEntry) (spec : MucodeEntrySpec)
      (s : S) {a b : MucodeEntry}
      → spec.size ≡ size
      → is_mu_none idx ≡ false
      → is_known size ≡ true
      → dispatch unreachable j idx spec s ≡ ok (s, a)
      → dispatch unreachable k idx spec s ≡ ok (s, b)
      → SameAssigned a b
  unfolding dispatch
  dispatch-SameAssigned mu_none size j k spec s e h g p q = cc
  dispatch-SameAssigned _ size j k spec s e h g p q = ground arith

  -- For every entry but `MU_NONE` and every size that is an enumerator, the fields of
  -- `SameAssigned` do not depend on what the local variable held before.
  pub decode_mucode_entry-SameAssigned :
      (j k : MucodeEntry) (spec : MucodeEntrySpec) (s : S) {a b : MucodeEntry}
      → is_mu_none spec.entry_idx ≡ false
      → is_known spec.size ≡ true
      → decode_mucode_entry unreachable j spec s ≡ ok (s, a)
      → decode_mucode_entry unreachable k spec s ≡ ok (s, b)
      → SameAssigned a b
  unfolding decode_mucode_entry
  decode_mucode_entry-SameAssigned j k spec s =
      dispatch-SameAssigned spec.entry_idx spec.size j k spec s refl

  dispatch-write_ctl :
      (idx : MucodeEntryIdx) (junk : MucodeEntry) (spec : MucodeEntrySpec) (s : S) {a : MucodeEntry}
      → is_mu_none idx ≡ false
      → dispatch unreachable junk idx spec s ≡ ok (s, a)
      → a.operation.mem_write_ctl
        ≡ (if sets_write_ctl idx then write_ctl_of spec else junk.operation.mem_write_ctl)
  unfolding dispatch
  dispatch-write_ctl mu_none junk spec s h p = cc
  dispatch-write_ctl _ junk spec s h p = ground arith

  -- The entries of `sets_write_ctl` read or write as `is_write` says; of the other entries what the
  -- local variable held decides.
  pub decode_mucode_entry-write_ctl :
      (junk : MucodeEntry) (spec : MucodeEntrySpec) (s : S) {a : MucodeEntry}
      → is_mu_none spec.entry_idx ≡ false
      → decode_mucode_entry unreachable junk spec s ≡ ok (s, a)
      → a.operation.mem_write_ctl ≡ (
          if sets_write_ctl spec.entry_idx then write_ctl_of spec else junk.operation.mem_write_ctl)
  unfolding decode_mucode_entry
  decode_mucode_entry-write_ctl junk spec s = dispatch-write_ctl spec.entry_idx junk spec s
