-- ===== src/Scenarios/Handing.antt =====
-- The two stages over one machine, at an instruction that is offered.
use hexheld_emu.Decode.{decoder_half1_dispatch_wait, decoder_half1_ready}
use hexheld_emu.Decode.Stage.Direct.{begun}
use hexheld_emu.Decode.Widths.{LeavesMachine, Unmoved-refl}
use hexheld_emu.Execute.{
  PilotExecuteState, exec_half1_ready, exec_seq_core_op_executed, exec_seq_wait_next_ins,
}
use hexheld_emu.Execute.Fetch.{step_size}
use hexheld_emu.Execute.Sequencer.{
  after_core_op, core_op, eval_control, final_steps, next_instruction,
  pilot_execute_sequencer_advance, run_entry,
}
use hexheld_emu.Execute.Widths.{OnlyReports}
use hexheld_emu.Pipeline.{PipeReach, Pipeline, after_execute, no_step, one_more, sequence}
use hexheld_emu.Pipeline.Handover.{IsOffered, IsTaken, handover}
use hexheld_emu.Pipeline.Instruction.{Completed, one_instruction, one_instruction-result}
use hexheld_emu.Pipeline.Widths.{Inherits, Unchanged, reach-Inherits, reach-Unchanged}
use hexheld_emu.Prelude.{Returns, arith, false, inl, ok, refl, true, ◌≡◌, ◌⊎◌}
use hexheld_emu.Scenarios.{decoder, executor, instruction, leftover, machine, quiet, reader}
use hexheld_emu.System.{mctl_ready}
use hexheld_emu.System.Widths.{InstFits, MachineFits}
use hexheld_emu.Types.{InstDecodedFlags, mem_read_ctl, mu_none}

abbrev offered : InstDecodedFlags
offered = instruction 0x5805 mu_none mu_none

-- The sequencer waits, and has had another instruction.
abbrev offering : Pipeline
offering = record {
  decode = decoder decoder_half1_dispatch_wait true 0x5805 0;
  execute =
      executor mctl_ready exec_half1_ready exec_seq_wait_next_ins true
        (instruction 0 mu_none mu_none);
}

abbrev taking : PilotExecuteState
taking = record offering.execute {
  sys = machine mctl_ready false;
  decoded_inst = offered;
  sequencer_phase = exec_seq_core_op_executed;
}

advanced :
    pilot_execute_sequencer_advance quiet
      (leftover mem_read_ctl)
      (λ addr. ok offering.decode.work_regs)
      offering.execute
    ≡ ok taking
unfolding pilot_execute_sequencer_advance run_entry next_instruction after_core_op final_steps
    eval_control core_op
advanced = refl

quiet-OnlyReports : OnlyReports quiet
quiet-OnlyReports = record {
  unreachable = λ s. refl;
  decode_unreachable = λ s. refl;
  invalid_opcode = λ sys. refl;
}

handover_example :
    IsOffered offered (after_execute offering taking)
    ⊎ ((r : Pipeline) × PipeReach reader quiet offering r
        × IsTaken offered r
        × PipeReach reader quiet r (after_execute offering taking))
handover_example =
    handover reader quiet quiet-OnlyReports offered
      (record { handed = (refl, refl); inst = refl; seen = refl })
      (one_more no_step (sequence {e = taking} (leftover mem_read_ctl) advanced))

-- Both stages can begin, at an addition of two registers.
abbrev idle_stages : Pipeline
idle_stages = record {
  decode = decoder decoder_half1_ready false 0x6108 0;
  execute =
      executor mctl_ready exec_half1_ready exec_seq_wait_next_ins false
        (instruction 0 mu_none mu_none);
}

one_instruction-result_example :
    Returns
      (Completed 0x00f1 idle_stages)
      (one_instruction reader quiet (leftover mem_read_ctl) 0 idle_stages)
unfolding step_size
one_instruction-result_example =
    one_instruction-result reader quiet 0 1 2 (omega arith) (omega arith) (omega arith) idle_stages
      (begun idle_stages.decode) (inl refl) refl refl refl refl refl refl refl (inl refl) refl refl
      (leftover mem_read_ctl) 0

reader-LeavesMachine : LeavesMachine reader
reader-LeavesMachine = record {
  unreachable = λ s. Unmoved-refl s;
  not_implemented = λ s. Unmoved-refl s;
  undeclared = λ s. Unmoved-refl s;
  invalid = λ s. Unmoved-refl s;
  try_read = λ s. Unmoved-refl s;
}

machine-MachineFits : MachineFits (machine mctl_ready true)
machine-MachineFits = record {
  regs = λ r small. omega arith;
  wf = omega arith;
  pgc = omega arith;
  repi = omega arith;
  repr = omega arith;
  addr_reg = omega arith;
  data_reg_in = omega arith;
  data_reg_out = omega arith;
  wait = omega arith;
  branch_k = omega arith;
  branch_addr = omega arith;
  hram = λ i small. omega arith;
}

instruction-InstFits : InstFits (instruction 0x5805 mu_none mu_none)
instruction-InstFits = record {
  words = λ i small. omega arith;
  inst_pgc = omega arith;
  over = omega arith;
  before = omega arith;
  after = omega arith;
  mask = omega arith;
  increment = omega arith;
  second = omega arith;
}

blank-InstFits : InstFits (instruction 0 mu_none mu_none)
blank-InstFits = record {
  words = λ i small. omega arith;
  inst_pgc = omega arith;
  over = omega arith;
  before = omega arith;
  after = omega arith;
  mask = omega arith;
  increment = omega arith;
  second = omega arith;
}

offering-Unchanged : Unchanged offering.decode.sys.core offering.decode.sys.hram offering
offering-Unchanged = (
  record {
    decode = record {
      machine = machine-MachineFits;
      inst = instruction-InstFits;
      pgc = omega arith;
      length = omega arith;
      wanted = omega arith;
      count = omega arith;
    };
    execute = record {
      machine = machine-MachineFits;
      inst = blank-InstFits;
      entry = omega arith;
      buffer = omega arith;
      input0 = omega arith;
      input1 = omega arith;
      output = omega arith;
      addr = omega arith;
      word = omega arith;
    };
  },
  record { decode_core = refl; decode_hram = refl; execute_core = refl; execute_hram = refl },
)

reach-Unchanged_example :
    Unchanged offering.decode.sys.core offering.decode.sys.hram (after_execute offering taking)
reach-Unchanged_example =
    reach-Unchanged reader reader-LeavesMachine quiet quiet-OnlyReports
      (one_more no_step (sequence {e = taking} (leftover mem_read_ctl) advanced)) (tt, omega arith)
      offering-Unchanged

reach-Inherits_example : Inherits offering (after_execute offering taking)
reach-Inherits_example =
    reach-Inherits reader reader-LeavesMachine quiet
      (one_more no_step (sequence {e = taking} (leftover mem_read_ctl) advanced))
