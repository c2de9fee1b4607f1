-- ===== src/Execute.antt =====
-- pilot-cpu/cpu_execute.c: the state of the execute stage, and the functions that it calls and the
-- repository does not define. The children hold the data bus (Fetch, Write), the ALU (Alu), the two
-- half cycles (Half1, Half2) and the sequencer (Sequencer).
pub mod Fetch
pub mod Write
pub mod Alu
pub mod Half1
pub mod Half2
pub mod Sequencer
pub mod Cycle
pub mod Stuck
pub mod Waiting
pub mod Widths
use hexheld_emu.Prelude.{Bool, Outcome, fault, ok, unset_pointer, ℕ}
use hexheld_emu.System.{PilotSystem}
use hexheld_emu.Types.{ExecuteControlWord, InstDecodedFlags, MucodeEntrySpec}

pub data ExecutionPhase : Type 0 where
  exec_half1_ready exec_half1_mem_wait exec_half1_operand_latch : ExecutionPhase
  exec_half1_mem_prepare exec_half1_mem_assert : ExecutionPhase
  exec_half2_ready exec_half2_result_latch exec_half2_mem_prepare exec_half2_mem_assert :
      ExecutionPhase
  exec_advance_sequencer exec_exception : ExecutionPhase

pub data SequencerPhase : Type 0 where
  exec_seq_wait_next_ins exec_seq_eval_control exec_seq_override_op : SequencerPhase
  exec_seq_run_before exec_seq_core_op exec_seq_core_op_executed : SequencerPhase
  exec_seq_run_after exec_seq_final_steps exec_seq_signal_branch : SequencerPhase

-- The values of the pointer `control`: not set, `&mucode_decoded_buffer`, `&decoded_inst.core_op`.
pub data ControlPointer : Type 0 where
  unset_control at_mucode_buffer at_core_op : ControlPointer

-- `sys` is the machine that the pointer of that name refers to; the array `alu_input_latches` is
-- two fields.
pub record PilotExecuteState : Type 0 where
  pub sys : PilotSystem
  pub decoded_inst : InstDecodedFlags
  pub mucode_control : MucodeEntrySpec
  pub mucode_decoded_buffer : ExecuteControlWord
  pub control : ControlPointer
  pub alu_input0 : ℕ  -- uint32_t
  pub alu_input1 : ℕ  -- uint32_t
  pub alu_output_latch : ℕ  -- uint32_t
  pub alu_shifter_carry_bit : Bool
  pub mem_addr : ℕ  -- uint32_t
  pub mem_data : ℕ  -- uint16_t
  pub mem_access_waiting : Bool
  pub mem_access_was_read : Bool
  pub execution_phase : ExecutionPhase
  pub sequencer_phase : SequencerPhase

-- What the functions outside the repository do to the state: `execute_unreachable_`,
-- `decode_unreachable_` (called by the microcode decoder) and `decode_invalid_opcode_`.
pub record ExecuteExterns : Type 0 where
  pub unreachable : PilotExecuteState → Outcome PilotExecuteState
  pub decode_unreachable : PilotExecuteState → Outcome PilotExecuteState
  pub invalid_opcode : PilotSystem → Outcome PilotSystem

-- `*state->control`.
abbrev pub control_word : PilotExecuteState → ControlPointer → Outcome ExecuteControlWord
control_word s unset_control = fault unset_pointer
control_word s at_mucode_buffer = ok s.mucode_decoded_buffer
control_word s at_core_op = ok s.decoded_inst.core_op

abbrev pub controlled : PilotExecuteState → Outcome ExecuteControlWord
controlled s = control_word s s.control
