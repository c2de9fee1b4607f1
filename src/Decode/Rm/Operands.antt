-- ===== src/Decode/Rm/Operands.antt =====
-- pilot-cpu/cpu_decode_rm.c: what the decoder does for a first operand that is a source, mode by
-- mode and without the bit tests.
use hexheld_emu.Decode.{DecodeExterns, PilotDecodeState, read_word}
use hexheld_emu.Decode.Rm.{
  SrcPointer, at_run_before, decode_rm_specifier, left_src, mark_second, right_src, rm_indexed,
  rm_mode, rm_pgc, rm_requires_mem_fetch, set_mucode, set_src, set_up_fetch,
}
use hexheld_emu.Decode.Rm.Modes.{
  AddressMode, IsMode, absolute_16, absolute_24, absolute_indexed, encode, immediate_16,
  immediate_24, pgc_16, pgc_24, post_increment, pre_decrement, register_direct, register_indexed,
  register_indirect, register_relative, short_immediate,
}
use hexheld_emu.Prelude.{
  Bool, Outcome, arith, below_16, below_8, false, if◌then◌else◌, ok, refl, true, ℕ, ◌>>=◌, ◌≡◌,
}
use hexheld_emu.Types.{
  DataSizeSpec, MucodeEntryIdx, data_latch_mem_data, data_latch_rm_1, data_latch_sfi_2, data_reg_l0,
  data_reg_p0, is_8_bit, mu_ind_imm_with_bits, mu_ind_pgc_with_imm_rm, mu_ind_reg, mu_ind_reg_auto,
  mu_ind_reg_post_auto, mu_ind_reg_with_bits, mu_ind_reg_with_imm, offset, size_16_bit, size_24_bit,
}

-- The operand is counted, and its size stored.
abbrev counted : PilotDecodeState → PilotDecodeState
counted s = record s { rm_ops = 1 }

-- A memory operand: the source is the memory data latch, and `run_before` is to read.
abbrev fetched : SrcPointer → DataSizeSpec → PilotDecodeState → PilotDecodeState
fetched src size s =
    let t =
      set_src src (λ a. record a { location = data_latch_mem_data; size = size }) (counted s) in
    record t {
      work_regs = record t.work_regs {
        run_before = record t.work_regs.run_before { is_write = false };
      };
    }

-- The micro-operation that computes the address.
abbrev plan : MucodeEntryIdx → ℕ → PilotDecodeState → PilotDecodeState
plan idx reg t = record t {
  work_regs = record t.work_regs {
    run_before = record t.work_regs.run_before { entry_idx = idx; reg_select = reg };
  };
}

-- Absolute addressing stores the width of the address, and no entry.
abbrev plan_absolute : DataSizeSpec → ℕ → PilotDecodeState → PilotDecodeState
plan_absolute width reg t = record t {
  work_regs = record t.work_regs {
    run_before = record t.work_regs.run_before { size = width; reg_select = reg };
  };
}

module _ (ext : DecodeExterns) where
  -- What is expected of each mode, from a state that has counted no operand. The immediates are taken
  -- from `DATA_LATCH_SFI_2` and `DATA_LATCH_RM_1`, which types.h gives to the second operand: the code
  -- tests `rm_ops` the other way round.
  unfoldable pub source_operand :
      AddressMode → SrcPointer → DataSizeSpec → PilotDecodeState → Outcome PilotDecodeState
  unfolding set_src offset mark_second set_mucode
  source_operand (register_direct reg) src size s = ok (
      set_src src
        (λ a. record a {
          location = if is_8_bit size then offset data_reg_l0 reg else offset data_reg_p0 reg;
          size = size;
        })
        (counted s))
  source_operand (short_immediate value) src size s = ok (
      set_src src (λ a. record { location = data_latch_sfi_2; size = size; sign_extend = false })
        (counted s))
  source_operand immediate_16 src size s = ok (
      set_src src
        (λ a. record { location = data_latch_rm_1; size = size_16_bit; sign_extend = true })
        (counted s))
  source_operand immediate_24 src size s = ok (
      set_src src
        (λ a. record { location = data_latch_rm_1; size = size_24_bit; sign_extend = false })
        (counted s))
  source_operand (register_indirect reg) src size s = ok (plan mu_ind_reg reg (fetched src size s))
  source_operand (register_relative reg) src size s =
      ok (plan mu_ind_reg_with_imm reg (fetched src size s))
  source_operand (post_increment reg) src size s =
      ok (plan mu_ind_reg_post_auto reg (fetched src size s))
  source_operand (pre_decrement reg) src size s = ok (plan mu_ind_reg_auto reg (fetched src size s))
  source_operand absolute_16 src size s = ok (plan_absolute size_16_bit 8 (fetched src size s))
  source_operand absolute_24 src size s = ok (plan_absolute size_24_bit 0 (fetched src size s))
  source_operand pgc_16 src size s = read_word ext (fetched src size s) >>= λ t.
      mark_second at_run_before (plan mu_ind_pgc_with_imm_rm 8 t)
  source_operand pgc_24 src size s = read_word ext (fetched src size s) >>= λ t.
      read_word ext (plan mu_ind_pgc_with_imm_rm 0 t) >>= λ u. mark_second at_run_before u
  source_operand register_indexed src size s = read_word ext (fetched src size s) >>= λ t.
      mark_second at_run_before (plan mu_ind_reg_with_bits 0 t)
  source_operand absolute_indexed src size s = read_word ext (fetched src size s) >>= λ t.
      read_word ext t >>= λ u. mark_second at_run_before (plan mu_ind_imm_with_bits 0 u)

  -- The decoder does what is expected of `mode`, into the right source and into the left one.
  abbrev Decodes : DataSizeSpec → PilotDecodeState → AddressMode → Type 0
  Decodes size s mode =
      (decode_rm_specifier ext (record s { rm_ops = 0 }) (encode mode) false false size
        ≡ source_operand mode right_src size s)
      × (decode_rm_specifier ext (record s { rm_ops = 0 }) (encode mode) false true size
          ≡ source_operand mode left_src size s)

  mode_Decodes :
      (size : DataSizeSpec) (s : PilotDecodeState) (mode : AddressMode)
      → IsMode mode
      → Decodes size s mode
  unfolding decode_rm_specifier source_operand rm_mode rm_indexed rm_pgc mark_second set_up_fetch
      rm_requires_mem_fetch
  mode_Decodes size s (register_direct reg) h =
      below_8 (λ r. Decodes size s (register_direct r)) (refl, refl) (refl, refl) (refl, refl)
        (refl, refl) (refl, refl) (refl, refl) (refl, refl) (refl, refl) reg h
  mode_Decodes size s (register_indirect reg) h =
      below_8 (λ r. Decodes size s (register_indirect r)) (refl, refl) (refl, refl) (refl, refl)
        (refl, refl) (refl, refl) (refl, refl) (refl, refl) (refl, refl) reg h
  mode_Decodes size s (register_relative reg) h =
      below_8 (λ r. Decodes size s (register_relative r)) (refl, refl) (refl, refl) (refl, refl)
        (refl, refl) (refl, refl) (refl, refl) (refl, refl) (refl, refl) reg h
  mode_Decodes size s (post_increment reg) h =
      below_8 (λ r. Decodes size s (post_increment r)) (refl, refl) (refl, refl) (refl, refl)
        (refl, refl) (refl, refl) (refl, refl) (refl, refl) (refl, refl) reg h
  mode_Decodes size s (pre_decrement reg) h =
      below_8 (λ r. Decodes size s (pre_decrement r)) (refl, refl) (refl, refl) (refl, refl)
        (refl, refl) (refl, refl) (refl, refl) (refl, refl) (refl, refl) reg h
  mode_Decodes size s (short_immediate value) h =
      below_16 (λ v. Decodes size s (short_immediate v)) (refl, refl) (refl, refl) (refl, refl)
        (refl, refl) (refl, refl) (refl, refl) (refl, refl) (refl, refl) (refl, refl) (refl, refl)
        (refl, refl) (refl, refl) (refl, refl) (refl, refl) (refl, refl) (refl, refl) value h
  mode_Decodes size s pgc_16 h = (ground arith, ground arith)
  mode_Decodes size s pgc_24 h = (ground arith, ground arith)
  mode_Decodes size s register_indexed h = (ground arith, ground arith)
  mode_Decodes size s absolute_indexed h = (ground arith, ground arith)
  mode_Decodes size s _ h = (refl, refl)

  -- A first operand that is a source, in any addressing mode and on either side, from any state
  -- with no operand counted: the decoder on the encoded mode does what `source_operand` says. An
  -- immediate is there taken from the latches that types.h gives to the second operand.
  pub decode_rm_specifier-source_operand :
      (s : PilotDecodeState) (mode : AddressMode) (src_is_left : Bool) (size : DataSizeSpec)
      → IsMode mode
      → decode_rm_specifier ext (record s { rm_ops = 0 }) (encode mode) false src_is_left size
        ≡ source_operand mode (if src_is_left then left_src else right_src) size s
  decode_rm_specifier-source_operand s mode false size h = (mode_Decodes size s mode h).0
  decode_rm_specifier-source_operand s mode true size h = (mode_Decodes size s mode h).1
