-- ===== src/Scenarios/Stages.antt =====
-- The decode stage's and the microcode's theorems at a state.
use hexheld_emu.Decode.{PilotDecodeState, decoder_half1_dispatch_wait, decoder_half2_read_operands}
use hexheld_emu.Decode.Stage.Handover.{IsHanded}
use hexheld_emu.Decode.Stage.Operands.{Delivers, half2_times, half2_times-IsHanded}
use hexheld_emu.Mucode.{decode_mucode_entry}
use hexheld_emu.Mucode.Chain.{decode_mucode_entry-successor, microprogram, microprogram-entry_count}
use hexheld_emu.Mucode.Defined.{
  SameAssigned, decode_mucode_entry-SameAssigned, decode_mucode_entry-write_ctl,
}
use hexheld_emu.Mucode.Entries.{ind_2cyc_pgc_withhml}
use hexheld_emu.Prelude.{
  Outcome, Returns, arith, false, fault, no_return, ok, refl, some, true, ℕ, ◌≡◌,
}
use hexheld_emu.Scenarios.{call_of, decoder, leftover, reader}
use hexheld_emu.Types.{
  MemWriteCtl, MucodeEntry, mem_read_ctl, mem_write_from_mdr, mu_ind_pgc_with_hml,
  mu_ind_reg_post_auto, mu_post_autoidx,
}

-- Two operand words are wanted.
abbrev wanting : PilotDecodeState
wanting = decoder decoder_half2_read_operands false 0x5805 2

abbrev handed : PilotDecodeState
handed = decoder decoder_half1_dispatch_wait true 0x5805 0

reader-Delivers : Delivers reader
reader-Delivers s = (refl, refl, refl)

half2_times-IsHanded_example : Returns IsHanded (half2_times reader 2 wanting)
half2_times-IsHanded_example =
    half2_times-IsHanded reader reader-Delivers 1 wanting (omega arith) (refl, omega arith)

-- The state of the caller of the microcode decoder, and what the default of its switch does to it.
abbrev stops : ℕ → Outcome ℕ
stops n = fault no_return

microprogram-entry_count_example :
    microprogram stops (leftover mem_read_ctl) 3 (call_of mu_ind_reg_post_auto) 7 ≡ ok (some 2)
microprogram-entry_count_example =
    microprogram-entry_count stops (leftover mem_read_ctl) 3 (call_of mu_ind_reg_post_auto) 7
      (omega arith)

decode_mucode_entry-successor_example :
    (entry : MucodeEntry) × (decode_mucode_entry stops
        (leftover mem_read_ctl)
        (call_of mu_ind_reg_post_auto)
        7
      ≡ ok (7, entry))
    × (entry.next ≡ call_of mu_post_autoidx)
decode_mucode_entry-successor_example =
    decode_mucode_entry-successor stops (leftover mem_read_ctl) (call_of mu_ind_reg_post_auto) 7
      refl

-- The entry as it is decoded over two leftovers.
abbrev decoded : MemWriteCtl → MucodeEntry
decoded write = ind_2cyc_pgc_withhml (leftover write) (call_of mu_ind_pgc_with_hml)

decode_mucode_entry-SameAssigned_example :
    SameAssigned (decoded mem_read_ctl) (decoded mem_write_from_mdr)
unfolding decode_mucode_entry
decode_mucode_entry-SameAssigned_example =
    decode_mucode_entry-SameAssigned stops (leftover mem_read_ctl) (leftover mem_write_from_mdr)
      (call_of mu_ind_pgc_with_hml) 7 refl refl refl refl

decode_mucode_entry-write_ctl_example :
    (decoded mem_write_from_mdr).operation.mem_write_ctl ≡ mem_write_from_mdr
unfolding decode_mucode_entry
decode_mucode_entry-write_ctl_example =
    decode_mucode_entry-write_ctl stops (leftover mem_write_from_mdr) (call_of mu_ind_pgc_with_hml)
      7 refl refl
