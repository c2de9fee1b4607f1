-- ===== src/Execute/Sequencer/Run.antt =====
-- pilot-cpu/cpu_execute.c: one entry of a microprogram, as the sequencer runs it.
use hexheld_emu.Execute.{
  ExecuteExterns, PilotExecuteState, SequencerPhase, at_mucode_buffer, exec_seq_core_op,
  exec_seq_final_steps,
}
use hexheld_emu.Execute.Sequencer.{
  at_core, at_run_after, at_run_before, core_op, pilot_execute_sequencer_mucode_run, run_entry,
}
use hexheld_emu.Mucode.Chain.{decode_mucode_entry-operation, decoded_operation, successor}
use hexheld_emu.Prelude.{
  Bool, Outcome, Returns, Returns-bind, arith, false, if◌then◌else◌, not, ok, refl, true, ◌>>=◌,
  ◌≡◌,
}
use hexheld_emu.Types.{MucodeEntry, is_mu_none}

module _ (ext : ExecuteExterns) (junk : MucodeEntry) where
  -- The state after an entry has been decoded, but for its phase.
  abbrev pub Decoded : PilotExecuteState → PilotExecuteState → Type 0
  Decoded s t =
      (t.control ≡ at_mucode_buffer)
      × (t.mucode_control
          ≡ record s.mucode_control { entry_idx = successor s.mucode_control.entry_idx })
      × (t.decoded_inst ≡ s.decoded_inst)
      × (t.sys ≡ s.sys)
      × (t.sequencer_phase ≡ s.sequencer_phase)
      × (t.execution_phase ≡ s.execution_phase)
      × (decoded_operation junk s.mucode_control ≡ ok t.mucode_decoded_buffer)

  -- Running an entry that is not `MU_NONE` points the control word at the buffer, moves to the successor,
  -- tells whether there is one, and leaves the instruction, the machine and the phases.
  pub mucode_run-successor :
      (s : PilotExecuteState)
      → is_mu_none s.mucode_control.entry_idx ≡ false
      → Returns
          (λ r. Decoded s r.0 × (r.1 ≡ not (is_mu_none (successor s.mucode_control.entry_idx))))
          (pilot_execute_sequencer_mucode_run ext junk s)
  unfolding pilot_execute_sequencer_mucode_run
  mucode_run-successor s h =
      let d = decode_mucode_entry-operation ext.decode_unreachable junk s.mucode_control s h in
      rw d.1 (ground (arith, d.2, d.3))

  -- A phase that the sequencer is not in does nothing.
  pub run_entry-other :
      (at_phase : SequencerPhase → Bool) (after : SequencerPhase) (s : PilotExecuteState)
      → at_phase s.sequencer_phase ≡ false
      → run_entry ext junk at_phase after s ≡ ok s
  unfolding run_entry
  run_entry-other at_phase after s h = rw h refl

  abbrev pub Ran : SequencerPhase → PilotExecuteState → PilotExecuteState → Type 0
  Ran after s t =
      (t.control ≡ at_mucode_buffer)
      × (t.mucode_control
          ≡ record s.mucode_control { entry_idx = successor s.mucode_control.entry_idx })
      × (t.decoded_inst ≡ s.decoded_inst)
      × (t.sys ≡ s.sys)
      × (t.sequencer_phase ≡ (
          if is_mu_none (successor s.mucode_control.entry_idx) then after else s.sequencer_phase))
      × (t.execution_phase ≡ s.execution_phase)
      × (decoded_operation junk s.mucode_control ≡ ok t.mucode_decoded_buffer)

  pub run_entry-Ran :
      (at_phase : SequencerPhase → Bool) (after : SequencerPhase) (s : PilotExecuteState)
      → at_phase s.sequencer_phase ≡ true
      → is_mu_none s.mucode_control.entry_idx ≡ false
      → Returns (Ran after s) (run_entry ext junk at_phase after s)
  unfolding run_entry
  run_entry-Ran at_phase after s h e = rw h (
      Returns-bind _ _ (pilot_execute_sequencer_mucode_run ext junk s) _ (mucode_run-successor s e)
        λ r d. ground arith)

  -- The blocks after the override.
  abbrev pub last_two : PilotExecuteState → Outcome PilotExecuteState
  last_two s2 = run_entry ext junk at_run_before exec_seq_core_op s2 >>= λ s3.
      run_entry ext junk at_run_after exec_seq_final_steps (core_op s3)

  -- They do nothing in the other phases.
  pub past :
      (s2 : PilotExecuteState)
      → at_run_before s2.sequencer_phase ≡ false
      → at_core s2.sequencer_phase ≡ false
      → at_run_after s2.sequencer_phase ≡ false
      → last_two s2 ≡ ok s2
  unfolding run_entry core_op
  past s2 b c a = ground arith
