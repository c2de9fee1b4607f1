-- ===== src/Execute/Widths/Half2.antt =====
-- pilot-cpu/cpu_execute.c, `pilot_execute_half2`: the widths through the second half cycle.
use hexheld_emu.Execute.{
  ExecuteExterns, PilotExecuteState, exec_advance_sequencer, exec_half2_mem_assert,
  exec_half2_mem_prepare, exec_half2_result_latch,
}
use hexheld_emu.Execute.Alu.{alu_compute}
use hexheld_emu.Execute.Half1.{enter}
use hexheld_emu.Execute.Half2.{
  at_half2_assert, at_half2_prepare, at_half2_ready, at_result_latch, execute_half2_mem_assert,
  execute_half2_mem_prepare, execute_half2_result_latch, from_half2, latches_half2,
  pilot_execute_half2, prepare_half2,
}
use hexheld_emu.Execute.Widths.{
  OnlyReports, Sound, Sound-refl, Sound-trans, enter-Sound, memory-Sound, output-Sound,
}
use hexheld_emu.Execute.Widths.Asserting.{assertion-Sound}
use hexheld_emu.Execute.Widths.Half1.{store-Sound}
use hexheld_emu.Execute.Widths.Latch.{alu_compute-lt}
use hexheld_emu.Execute.Widths.Steps.{block-Sound, choice-Sound, then-Sound, word-Sound}
use hexheld_emu.Prelude.{Ensures, bit_and, if◌then◌else◌, not, ok, ℕ, ◌&&◌}
use hexheld_emu.Types.{
  MemWriteCtl, mem_read_ctl, mem_write_from_dest, mem_write_from_mdr, mem_write_from_src1,
}

latch-Sound :
    (junk : ℕ) (s : PilotExecuteState) → Ensures (Sound s) (execute_half2_result_latch junk s)
unfolding execute_half2_result_latch
latch-Sound junk s = word-Sound s _ λ ctl.
    let r =
      alu_compute ctl (bit_and s.sys.core.wf 0xff) s.alu_input0 s.alu_input1 s.alu_output_latch
        junk in
    Sound-trans s (record s { alu_output_latch = r.latch; alu_shifter_carry_bit = r.shifter_carry })
      _ (output-Sound s r.latch r.shifter_carry λ f. alu_compute-lt ctl _ _ _ _ junk f.output)
      (enter-Sound exec_half2_mem_prepare _)

address-Sound : (s : PilotExecuteState) → Sound s (record s { mem_addr = s.alu_output_latch })
address-Sound s = memory-Sound s s.alu_output_latch s.mem_data (λ f. f.output) λ f. f.word

mem_assert-Sound : (s : PilotExecuteState) → Ensures (Sound s) (execute_half2_mem_assert s)
unfolding execute_half2_mem_assert
mem_assert-Sound s = word-Sound s _ λ ctl.
    assertion-Sound (from_half2 ctl.mem_latch_ctl && not ctl.mem_access_suppress)
      exec_advance_sequencer ctl s

module _ (ext : ExecuteExterns) (reports : OnlyReports ext) where
  prepare_half2-Sound :
      (write : MemWriteCtl) (s : PilotExecuteState) → Ensures (Sound s) (prepare_half2 ext write s)
  unfolding prepare_half2
  prepare_half2-Sound mem_write_from_src1 s =
      rw (reports.unreachable s) (store-Sound s s.alu_input1)
  prepare_half2-Sound mem_write_from_dest s = store-Sound s s.alu_output_latch
  prepare_half2-Sound mem_write_from_mdr s = Sound-refl s
  prepare_half2-Sound mem_read_ctl s = Sound-refl s

  prepare-Sound : (s : PilotExecuteState) → Ensures (Sound s) (execute_half2_mem_prepare ext s)
  unfolding execute_half2_mem_prepare
  prepare-Sound s = word-Sound s _ λ ctl.
      then-Sound s
        (ok (
          if latches_half2 ctl.mem_latch_ctl
          then record s { mem_addr = s.alu_output_latch }
          else s))
        _ (choice-Sound (latches_half2 ctl.mem_latch_ctl) s _ _ (address-Sound s) (Sound-refl s))
        λ s1.
          then-Sound s1 _ (λ s2. ok (enter exec_half2_mem_assert s2))
            (block-Sound (from_half2 ctl.mem_latch_ctl) _ s1
              (prepare_half2-Sound ctl.mem_write_ctl s1))
            λ s2. enter-Sound exec_half2_mem_assert s2

  -- The second half cycle.
  pub half2-Sound :
      (junk : ℕ) (s : PilotExecuteState) → Ensures (Sound s) (pilot_execute_half2 ext junk s)
  unfolding pilot_execute_half2
  half2-Sound junk s =
      then-Sound s
        (ok (if at_half2_ready s.execution_phase then enter exec_half2_result_latch s else s)) _
        (choice-Sound (at_half2_ready s.execution_phase) s _ _
          (enter-Sound exec_half2_result_latch s) (Sound-refl s))
        λ t.
          then-Sound t _ _
            (block-Sound (at_result_latch t.execution_phase) _ t (latch-Sound junk t))
            λ s1.
              then-Sound s1 _ _
                (block-Sound (at_half2_prepare s1.execution_phase) _ s1 (prepare-Sound s1))
                λ s2. block-Sound (at_half2_assert s2.execution_phase) _ s2 (mem_assert-Sound s2)
