-- ===== src/Scenarios/Executing.antt =====
-- The execute stage's theorems at a state.
use hexheld_emu.Execute.{
  PilotExecuteState, at_core_op, exec_advance_sequencer, exec_half1_ready,
  exec_seq_core_op_executed, exec_seq_final_steps, exec_seq_wait_next_ins,
}
use hexheld_emu.Execute.Alu.{
  add_to_operand, alu_compute, alu_operate_shifter, alu_result, decimal_adjust, inject_bit, msb_bit,
  negate_operand, prepare_operand, shifted,
}
use hexheld_emu.Execute.Cycle.{cycle-alu_compute}
use hexheld_emu.Execute.Cycle.Access.{cycle-accesses}
use hexheld_emu.Execute.Fetch.{fetch_data}
use hexheld_emu.Execute.Half1.{pilot_execute_half1, uses_mem_data}
use hexheld_emu.Execute.Half2.{pilot_execute_half2}
use hexheld_emu.Execute.Sequencer.{lower_semaph, pilot_execute_sequencer_advance}
use hexheld_emu.Execute.Sequencer.Finishing.{advance-finished, advance_times, advance_times-Remains}
use hexheld_emu.Execute.Sequencer.Offered.{HasTaken, advance_times-HasTaken}
use hexheld_emu.Execute.Sequencer.Remaining.{Remains}
use hexheld_emu.Execute.Sequencer.Taking.{advance-taken, first_buffer}
use hexheld_emu.Execute.Stuck.{ExecReach, SilentDecode, advance, call_after, done_forever, no_call}
use hexheld_emu.Execute.Waiting.{IsWaiting, not_waited, wait_half2, waited, waits_forever}
use hexheld_emu.Memory.{pilot_mem_data_wait}
use hexheld_emu.Prelude.{Outcome, Returns, arith, false, inl, ok, refl, true, ℕ, ◌>>=◌, ◌↔◌, ◌≡◌}
use hexheld_emu.Scenarios.{add_words, executor, instruction, leftover, quiet, source_of}
use hexheld_emu.System.{mctl_mem_r_busy, mctl_mem_w_busy, mctl_ready}
use hexheld_emu.Types.{
  ExecuteControlWord, InstDecodedFlags, data_latch_mem_data, mem_latch_half2, mem_read_ctl,
  mem_write_from_dest, mu_ind_reg, mu_ind_reg_post_auto, mu_none,
}

-- Waiting for an instruction, with one offered at 0x40, whose operation is preceded by an entry.
abbrev with_before : InstDecodedFlags
with_before = instruction 0 mu_ind_reg mu_none

abbrev waiting : PilotExecuteState
waiting = executor mctl_ready exec_half1_ready exec_seq_wait_next_ins true with_before

abbrev offers : ℕ → Outcome InstDecodedFlags
offers addr = ok with_before

advance-taken_example :
    Returns
      (λ t.
        (t.control ≡ at_core_op)
        × (t.sequencer_phase ≡ exec_seq_core_op_executed)
        × (t.decoded_inst ≡ with_before)
        × (t.sys ≡ lower_semaph waiting.sys)
        × (t.execution_phase ≡ exec_half1_ready)
        × (first_buffer (leftover mem_read_ctl) with_before waiting.mucode_decoded_buffer
            ≡ ok t.mucode_decoded_buffer))
      (pilot_execute_sequencer_advance quiet (leftover mem_read_ctl) offers waiting)
advance-taken_example =
    advance-taken offers waiting with_before (inl refl) refl refl quiet (leftover mem_read_ctl)

-- The operation was chosen, and two entries follow.
abbrev with_after : PilotExecuteState
with_after =
    executor mctl_ready exec_half1_ready exec_seq_core_op_executed false
      (instruction 0 mu_none mu_ind_reg_post_auto)

advance_times-Remains_example :
    Returns
      (λ t. Remains false 1 t × ((t.sequencer_phase ≡ exec_seq_wait_next_ins) ↔ Path ℕ 1 0))
      (advance_times offers quiet (leftover mem_read_ctl) 2 with_after)
advance_times-Remains_example =
    advance_times-Remains offers quiet (leftover mem_read_ctl) 2 1 3 with_after
      (record { rests = refl; offered = refl; left = refl }) refl

-- The same, with the next instruction offered.
abbrev followed : PilotExecuteState
followed =
    executor mctl_ready exec_half1_ready exec_seq_core_op_executed true
      (instruction 0 mu_none mu_ind_reg_post_auto)

advance_times-HasTaken_example :
    Returns
      (λ t. t.sys.interconnects.decoded_inst_semaph ≡ true)
      (advance_times offers quiet (leftover mem_read_ctl) 2 followed)
    × Returns
        (HasTaken with_before quiet (leftover mem_read_ctl))
        (advance_times offers quiet (leftover mem_read_ctl) 3 followed)
advance_times-HasTaken_example =
    advance_times-HasTaken with_before quiet (leftover mem_read_ctl) 2 2 followed
      (inl (record { rests = refl; offered = refl; left = refl })) (omega arith)

-- A cycle that adds W2 to W1.
abbrev adding : PilotExecuteState
adding =
    executor mctl_ready exec_half1_ready exec_seq_core_op_executed false
      (instruction 0 mu_none mu_none)

cycle-alu_compute_example :
    (pilot_execute_half1 quiet adding >>= pilot_execute_half2 quiet 0)
    ≡ ok (record adding {
      alu_input0 = 0xfff1;
      alu_input1 = 0xfff2;
      alu_output_latch = 0x1ffe3;
      execution_phase = exec_advance_sequencer;
    })
unfolding fetch_data alu_compute prepare_operand add_to_operand negate_operand alu_operate_shifter
    shifted alu_result decimal_adjust msb_bit inject_bit
cycle-alu_compute_example =
    cycle-alu_compute quiet adding add_words 0xfff1 0xfff2 refl refl refl refl refl refl 0

quiet-SilentDecode : SilentDecode quiet
quiet-SilentDecode s = refl

-- At the end of a cycle, before and after the sequencer was called.
abbrev done : PilotExecuteState
done = executor mctl_ready exec_advance_sequencer exec_seq_final_steps false with_before

abbrev advanced : PilotExecuteState
advanced = record done { sequencer_phase = exec_seq_wait_next_ins }

abbrev calls : ExecReach quiet offers done advanced
calls = call_after no_call (
    advance {s = done} {t = advanced} (leftover mem_read_ctl)
      (advance-finished offers quiet (leftover mem_read_ctl) done (inl refl) refl))

done_forever_example :
    (pilot_execute_half1 quiet advanced ≡ ok advanced)
    × ((junk : ℕ) → pilot_execute_half2 quiet junk advanced ≡ ok advanced)
done_forever_example = done_forever quiet quiet-SilentDecode refl calls

-- The same cycle, with a write of the result in its second half.
abbrev writing_control : ExecuteControlWord
writing_control = record add_words {
  mem_latch_ctl = mem_latch_half2;
  mem_write_ctl = mem_write_from_dest;
}

abbrev addressing : PilotExecuteState
addressing = record adding {
  decoded_inst = record adding.decoded_inst { core_op = writing_control };
}

cycle-accesses_example :
    (pilot_execute_half1 quiet addressing
      >>= pilot_execute_half2 quiet 0
      >>= pilot_execute_half2 quiet 0)
    ≡ ok (record addressing {
      sys = record addressing.sys {
        memctl = record addressing.sys.memctl {
          addr_reg = 0x1ffe3;
          data_reg_out = 0xffe3;
          state = mctl_mem_w_busy;
        };
      };
      alu_input0 = 0xfff1;
      alu_input1 = 0xfff2;
      alu_output_latch = 0x1ffe3;
      mem_addr = 0x1ffe3;
      mem_data = 0xffe3;
      mem_access_waiting = true;
      execution_phase = exec_advance_sequencer;
    })
unfolding fetch_data alu_compute prepare_operand add_to_operand negate_operand alu_operate_shifter
    shifted alu_result decimal_adjust msb_bit inject_bit
cycle-accesses_example =
    cycle-accesses quiet addressing writing_control 0xfff1 0xfff2 refl refl refl refl refl refl refl
      refl 0 0

-- A read is held, and the next control word uses its data.
abbrev using_control : ExecuteControlWord
using_control = record add_words { src0 = source_of data_latch_mem_data }

abbrev standing : PilotExecuteState
standing =
    record (executor mctl_mem_r_busy exec_half1_ready exec_seq_core_op_executed false
      (record (instruction 0 mu_none mu_none) { core_op = using_control })) {
        mem_access_waiting = true;
      }

standing-IsWaiting : IsWaiting using_control 0x1234 standing
unfolding uses_mem_data pilot_mem_data_wait
standing-IsWaiting = record {
  phase = inl refl;
  waiting = refl;
  word = refl;
  needed = refl;
  held = record { busy = refl; not_idle = refl; held = refl; silent = refl };
}

half2-standing : pilot_execute_half2 quiet 0 standing ≡ ok standing
unfolding pilot_execute_half2
half2-standing = refl

waits_forever_example : IsWaiting using_control 0x1234 standing
waits_forever_example =
    waits_forever quiet standing-IsWaiting (waited not_waited (wait_half2 0 half2-standing))
