-- ===== src/Execute/Sequencer/Taking.antt =====
-- pilot-cpu/cpu_execute.c, `pilot_execute_sequencer_advance`: the advance that takes an instruction.
use hexheld_emu.Execute.{
  ControlPointer, ExecuteExterns, PilotExecuteState, SequencerPhase, at_core_op, at_mucode_buffer,
  exec_seq_core_op, exec_seq_core_op_executed, exec_seq_eval_control, exec_seq_final_steps,
  exec_seq_override_op, exec_seq_run_before, exec_seq_wait_next_ins,
}
use hexheld_emu.Execute.Sequencer.{
  after_core_op, at_override_op, at_run_after, at_run_before, core_op, eval_control, final_steps,
  lower_semaph, next_instruction, pilot_execute_sequencer_advance, run_entry, start_mucode,
}
use hexheld_emu.Execute.Sequencer.Run.{Ran, last_two, past, run_entry-Ran, run_entry-other}
use hexheld_emu.Mucode.Chain.{decoded_operation, successor}
use hexheld_emu.Prelude.{
  Bool-cases, Outcome, Returns, Returns-bind, arith, false, if◌then◌else◌, inl, inr, not, ok, refl,
  true, ℕ, ◌>>=◌, ◌≡◌, ◌⊎◌,
}
use hexheld_emu.Types.{ExecuteControlWord, InstDecodedFlags, MucodeEntry, is_mu_none}

-- What is pointed to, and the phase, after the advance that takes `inst`.
abbrev pub first_control : InstDecodedFlags → ControlPointer
first_control inst =
    if not (is_mu_none inst.override_op.entry_idx)
    then at_mucode_buffer
    else if is_mu_none inst.run_before.entry_idx
    then at_core_op
    else if is_mu_none (successor inst.run_before.entry_idx)
    then at_core_op
    else at_mucode_buffer

abbrev pub first_phase : InstDecodedFlags → SequencerPhase
first_phase inst =
    if not (is_mu_none inst.override_op.entry_idx)
    then (if is_mu_none (successor inst.override_op.entry_idx)
        then exec_seq_final_steps
        else exec_seq_override_op)
    else if is_mu_none inst.run_before.entry_idx
    then exec_seq_core_op_executed
    else if is_mu_none (successor inst.run_before.entry_idx)
    then exec_seq_core_op_executed
    else exec_seq_run_before

-- What is in the buffer of the microcode then, which held `before`: the entry of the override, or
-- else that before the operation, if there is one.
abbrev pub first_buffer :
    MucodeEntry → InstDecodedFlags → ExecuteControlWord → Outcome ExecuteControlWord
first_buffer junk inst before =
    if not (is_mu_none inst.override_op.entry_idx)
    then decoded_operation junk inst.override_op
    else if is_mu_none inst.run_before.entry_idx
    then ok before
    else decoded_operation junk inst.run_before

-- The state when the instruction has been copied.
abbrev taken : InstDecodedFlags → PilotExecuteState → PilotExecuteState
taken inst s = record s {
  decoded_inst = inst;
  sys = lower_semaph s.sys;
  sequencer_phase = exec_seq_eval_control;
}

-- The sequencer waits, or has nothing left to run.
abbrev pub IsFree : PilotExecuteState → Type 0
IsFree s =
    (s.sequencer_phase ≡ exec_seq_wait_next_ins)
    ⊎ (s.sequencer_phase ≡ exec_seq_final_steps)
    ⊎ ((s.sequencer_phase ≡ exec_seq_core_op_executed)
        × (is_mu_none s.decoded_inst.run_after.entry_idx ≡ true))

module _ (inst_at : ℕ → Outcome InstDecodedFlags) (s : PilotExecuteState) (inst : InstDecodedFlags)
    (free : IsFree s) (offered : s.sys.interconnects.decoded_inst_semaph ≡ true)
    (there : inst_at s.sys.interconnects.decoded_inst ≡ ok inst) where
  next_instruction-taken :
      next_instruction inst_at (final_steps (after_core_op s)) ≡ ok (taken inst s)
  unfolding next_instruction final_steps after_core_op
  next_instruction-taken = ground arith

  module _ (ext : ExecuteExterns) (junk : MucodeEntry) where
    -- The result of the advance.
    abbrev pub Took : PilotExecuteState → Type 0
    Took t =
        (t.control ≡ first_control inst)
        × (t.sequencer_phase ≡ first_phase inst)
        × (t.decoded_inst ≡ inst)
        × (t.sys ≡ lower_semaph s.sys)
        × (t.execution_phase ≡ s.execution_phase)
        × (first_buffer junk inst s.mucode_decoded_buffer ≡ ok t.mucode_decoded_buffer)

    abbrev blocks : PilotExecuteState → Outcome PilotExecuteState
    blocks s1 = run_entry ext junk at_override_op exec_seq_final_steps s1 >>= last_two ext junk

    override-Took :
        is_mu_none inst.override_op.entry_idx ≡ false
        → Returns Took (blocks (eval_control (taken inst s)))
    unfolding eval_control
    override-Took o =
        let s1 = start_mucode exec_seq_override_op inst.override_op (taken inst s) in
        rw o (
          Returns-bind (Ran ext junk exec_seq_final_steps s1) Took
            (run_entry ext junk at_override_op exec_seq_final_steps s1) (last_two ext junk)
            (run_entry-Ran ext junk at_override_op exec_seq_final_steps s1 refl o)
            λ t r. rw (past ext junk t (ground arith) (ground arith) (ground arith)) (ground arith))

    rest-Took :
        (t : PilotExecuteState)
        → is_mu_none inst.override_op.entry_idx ≡ true
        → is_mu_none inst.run_before.entry_idx ≡ false
        → Ran ext junk exec_seq_core_op
            (start_mucode exec_seq_run_before inst.run_before (taken inst s))
            t
        → Returns Took (run_entry ext junk at_run_after exec_seq_final_steps (core_op t))
    unfolding core_op run_entry
    rest-Took t o b r = ground arith

    before-Took :
        is_mu_none inst.override_op.entry_idx ≡ true
        → is_mu_none inst.run_before.entry_idx ≡ false
        → Returns Took (blocks (eval_control (taken inst s)))
    unfolding eval_control
    before-Took o b =
        let s1 = start_mucode exec_seq_run_before inst.run_before (taken inst s) in
        let rest = λ (s3 : PilotExecuteState).
          run_entry ext junk at_run_after exec_seq_final_steps (core_op s3) in
        rw o (
          rw b (
            rw (run_entry-other ext junk at_override_op exec_seq_final_steps s1 refl) (
              Returns-bind (Ran ext junk exec_seq_core_op s1) Took
                (run_entry ext junk at_run_before exec_seq_core_op s1) rest
                (run_entry-Ran ext junk at_run_before exec_seq_core_op s1 refl b)
                λ t r. rest-Took t o b r)))

    core-Took :
        is_mu_none inst.override_op.entry_idx ≡ true
        → is_mu_none inst.run_before.entry_idx ≡ true
        → Returns Took (blocks (eval_control (taken inst s)))
    unfolding eval_control core_op run_entry
    core-Took o b = ground arith

    -- Without an override and an entry before the operation, the state is known.
    pub advance-at_core :
        is_mu_none inst.override_op.entry_idx ≡ true
        → is_mu_none inst.run_before.entry_idx ≡ true
        → pilot_execute_sequencer_advance ext junk inst_at s
          ≡ ok (record s {
            decoded_inst = inst;
            sys = lower_semaph s.sys;
            control = at_core_op;
            sequencer_phase = exec_seq_core_op_executed;
          })
    unfolding pilot_execute_sequencer_advance eval_control core_op run_entry
    advance-at_core o b = rw next_instruction-taken (rw o (rw b refl))

    -- Where the sequencer waits or has nothing left to run, the semaphore is raised and its
    -- address refers to an instruction: the advance returns, with the instruction copied and the
    -- semaphore lowered. With an override, or where the entry before the operation has a
    -- successor, the control word is the buffer of the microcode; otherwise it is the operation of
    -- the instruction. The buffer holds the operation decoded from the override, or else from the
    -- entry before the operation; with neither it is unchanged. An entry before the operation that
    -- has no successor is so decoded, and the pointer is moved on to the operation in the same
    -- advance.
    pub advance-taken : Returns Took (pilot_execute_sequencer_advance ext junk inst_at s)
    unfolding pilot_execute_sequencer_advance
    advance-taken =
        rw next_instruction-taken (elim (Bool-cases (is_mu_none inst.override_op.entry_idx)) [
          | inr o ↦ override-Took o
          | inl o ↦ elim (Bool-cases (is_mu_none inst.run_before.entry_idx)) [
            | inr b ↦ before-Took o b
            | inl b ↦ core-Took o b
          ]
        ])
