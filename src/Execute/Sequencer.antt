-- ===== src/Execute/Sequencer.antt =====
-- pilot-cpu/cpu_execute.c: the sequencer, which chooses the next control word.
pub mod Run
pub mod Taking
pub mod Remaining
pub mod Finishing
pub mod Offered
use hexheld_emu.Execute.{
  ExecuteExterns, PilotExecuteState, SequencerPhase, at_core_op, at_mucode_buffer, exec_seq_core_op,
  exec_seq_core_op_executed, exec_seq_eval_control, exec_seq_final_steps, exec_seq_override_op,
  exec_seq_run_after, exec_seq_run_before, exec_seq_wait_next_ins,
}
use hexheld_emu.Mucode.{decode_mucode_entry}
use hexheld_emu.Prelude.{Bool, Outcome, false, if◌then◌else◌, not, ok, true, ℕ, ◌&&◌, ◌>>=◌, ◌>>◌}
use hexheld_emu.System.{PilotSystem}
use hexheld_emu.Types.{InstDecodedFlags, MucodeEntry, MucodeEntrySpec, is_mu_none}

-- `sequencer_phase == …`.
abbrev pub at_core_op_executed : SequencerPhase → Bool
at_core_op_executed exec_seq_core_op_executed = true
at_core_op_executed _ = false

abbrev pub at_final_steps : SequencerPhase → Bool
at_final_steps exec_seq_final_steps = true
at_final_steps _ = false

abbrev pub at_wait_next_ins : SequencerPhase → Bool
at_wait_next_ins exec_seq_wait_next_ins = true
at_wait_next_ins _ = false

abbrev pub at_eval_control : SequencerPhase → Bool
at_eval_control exec_seq_eval_control = true
at_eval_control _ = false

abbrev pub at_override_op : SequencerPhase → Bool
at_override_op exec_seq_override_op = true
at_override_op _ = false

abbrev pub at_run_before : SequencerPhase → Bool
at_run_before exec_seq_run_before = true
at_run_before _ = false

abbrev pub at_core : SequencerPhase → Bool
at_core exec_seq_core_op = true
at_core _ = false

abbrev pub at_run_after : SequencerPhase → Bool
at_run_after exec_seq_run_after = true
at_run_after _ = false

abbrev pub go_to : SequencerPhase → PilotExecuteState → PilotExecuteState
go_to phase s = record s { sequencer_phase = phase }

-- A phase that runs microcode from `spec`.
abbrev pub start_mucode : SequencerPhase → MucodeEntrySpec → PilotExecuteState → PilotExecuteState
start_mucode phase spec s = record s { sequencer_phase = phase; mucode_control = spec }

-- The pure blocks of `pilot_execute_sequencer_advance`, in order.
unfoldable pub after_core_op : PilotExecuteState → PilotExecuteState
after_core_op s =
    if at_core_op_executed s.sequencer_phase
    then (if not (is_mu_none s.decoded_inst.run_after.entry_idx)
        then start_mucode exec_seq_run_after s.decoded_inst.run_after s
        else go_to exec_seq_final_steps s)
    else s

unfoldable pub final_steps : PilotExecuteState → PilotExecuteState
final_steps s = if at_final_steps s.sequencer_phase then go_to exec_seq_wait_next_ins s else s

unfoldable pub eval_control : PilotExecuteState → PilotExecuteState
eval_control s =
    if at_eval_control s.sequencer_phase
    then (if not (is_mu_none s.decoded_inst.override_op.entry_idx)
        then start_mucode exec_seq_override_op s.decoded_inst.override_op s
        else if not (is_mu_none s.decoded_inst.run_before.entry_idx)
        then start_mucode exec_seq_run_before s.decoded_inst.run_before s
        else go_to exec_seq_core_op s)
    else s

unfoldable pub core_op : PilotExecuteState → PilotExecuteState
core_op s =
    if at_core s.sequencer_phase
    then record s { control = at_core_op; sequencer_phase = exec_seq_core_op_executed }
    else s

-- The machine after an instruction was taken.
abbrev pub lower_semaph : PilotSystem → PilotSystem
lower_semaph sys = record sys {
  interconnects = record sys.interconnects { decoded_inst_semaph = false };
}

-- `inst_at` is what the pointer `decoded_inst` refers to at an address.
module _ (inst_at : ℕ → Outcome InstDecodedFlags) where
  unfoldable pub next_instruction : PilotExecuteState → Outcome PilotExecuteState
  next_instruction s =
      if at_wait_next_ins s.sequencer_phase && s.sys.interconnects.decoded_inst_semaph
      then (inst_at s.sys.interconnects.decoded_inst >>= λ inst. ok (record s {
        decoded_inst = inst;
        sys = lower_semaph s.sys;
        sequencer_phase = exec_seq_eval_control;
      }))
      else ok s

-- `junk` is what the local variables of the microcode decoder hold at first.
module _ (ext : ExecuteExterns) (junk : MucodeEntry) where
  unfoldable pub pilot_execute_sequencer_mucode_run :
      PilotExecuteState → Outcome (PilotExecuteState × Bool)
  pilot_execute_sequencer_mucode_run s = do
    (s1, decoded) ← decode_mucode_entry ext.decode_unreachable junk s.mucode_control s
    let s2 = record s1 {
      mucode_control = decoded.next;
      mucode_decoded_buffer = decoded.operation;
      control = at_mucode_buffer;
    }
    ok (s2, not (is_mu_none decoded.next.entry_idx))

  -- A phase that runs one entry, and moves on to `then` after the last.
  unfoldable pub run_entry :
      (SequencerPhase → Bool) → SequencerPhase → PilotExecuteState → Outcome PilotExecuteState
  run_entry at_phase after s =
      if at_phase s.sequencer_phase
      then (pilot_execute_sequencer_mucode_run s >>= λ r.
          ok (if not r.1 then go_to after r.0 else r.0))
      else ok s

  unfoldable pub pilot_execute_sequencer_advance :
      (ℕ → Outcome InstDecodedFlags) → PilotExecuteState → Outcome PilotExecuteState
  pilot_execute_sequencer_advance inst_at s = do
    s1 ← next_instruction inst_at (final_steps (after_core_op s))
    s2 ← run_entry at_override_op exec_seq_final_steps (eval_control s1)
    s3 ← run_entry at_run_before exec_seq_core_op s2
    run_entry at_run_after exec_seq_final_steps (core_op s3)
