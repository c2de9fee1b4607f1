-- ===== src/Scenarios.antt =====
-- Concrete machines and instructions, and the theorems at them.
mod Decoding
mod Stages
mod Handing
mod Executing
mod Computing
mod Bus
use hexheld_emu.Decode.{DecodeExterns, DecodingPhase, PilotDecodeState}
use hexheld_emu.Execute.{
  ExecuteExterns, ExecutionPhase, PilotExecuteState, SequencerPhase, at_core_op,
}
use hexheld_emu.Execute.Sequencer.{core_op}
use hexheld_emu.Prelude.{Bool, false, ok, true, ℕ, ◌+◌}
use hexheld_emu.System.{MemctlState, PilotSystem, mctl_ready}
use hexheld_emu.Types.{
  AluSrcControl, DataBusSpecifier, ExecuteControlWord, InstDecodedFlags, MemWriteCtl, MucodeEntry,
  MucodeEntryIdx, MucodeEntrySpec, alu_add, br_relative_short, cond_always, data_reg_w1,
  data_reg_w2, flag_c_alu_carry, flag_v_normal, mem_no_latch, mem_read_ctl, mu_none, shifter_none,
  size_16_bit,
}

-- Nothing is set.
abbrev pub source_of : DataBusSpecifier → AluSrcControl
source_of bus = record { location = bus; size = size_16_bit; sign_extend = false }

-- The addition of W1 to W2, with the flags of ADD.
abbrev pub add_words : ExecuteControlWord
add_words = record {
  src0 = source_of data_reg_w1;
  src1 = source_of data_reg_w2;
  dest = data_reg_w1;
  operation = alu_add;
  src2_add_carry = false;
  src2_negate = false;
  src2_add1 = false;
  shifter_mode = shifter_none;
  flag_write_mask = 0xcd;
  invert_carries = false;
  flag_c_mode = flag_c_alu_carry;
  flag_d = false;
  flag_v_mode = flag_v_normal;
  mem_latch_ctl = mem_no_latch;
  mem_access_suppress = false;
  mem_write_ctl = mem_read_ctl;
  mem_size = size_16_bit;
}

-- A call of an entry with register 3, to read a word.
abbrev pub call_of : MucodeEntryIdx → MucodeEntrySpec
call_of idx = record { entry_idx = idx; reg_select = 3; size = size_16_bit; is_write = false }

-- The addition, with entries before and after it, of an opcode word.
abbrev pub instruction : ℕ → MucodeEntryIdx → MucodeEntryIdx → InstDecodedFlags
instruction opcode before after = record {
  imm_words = λ i. opcode;
  inst_pgc = 0;
  override_op = call_of mu_none;
  run_before = call_of before;
  core_op = add_words;
  run_after = call_of after;
  auto_incr_amount = 0;
  branch = false;
  branch_cond = cond_always;
  branch_dest_type = br_relative_short;
  rm2_offset = 1;
}

-- Register `r` holds `0x12fff0 + r`.
abbrev pub machine : MemctlState → Bool → PilotSystem
machine state offered = record {
  core = record { regs = λ r. 0x12fff0 + r; wf = 0; pgc = 0x8000; repi = 0; repr = 0 };
  memctl = record {
    state = state;
    data_valid = false;
    wait_cycles_left = 0;
    addr_reg = 0x1234;
    data_reg_in = 0;
    data_reg_out = 0;
  };
  interconnects = record {
    fetch_word_semaph = false;
    fetch_branch = false;
    decoded_inst_semaph = offered;
    decoded_inst = 0x40;
    execute_branch = false;
    execute_branch_k = 0;
    execute_branch_addr = 0;
    execute_memory_backoff = false;
  };
  hram = λ i. 0;
}

-- The decode stage at a phase, with an opcode word, wanting some words.
abbrev pub decoder : DecodingPhase → Bool → ℕ → ℕ → PilotDecodeState
decoder phase offered opcode words = record {
  sys = machine mctl_ready offered;
  work_regs = instruction opcode mu_none mu_none;
  pgc = 0x8000;
  inst_length = 1;
  words_to_read = words;
  decoding_phase = phase;
  rm_ops = 0;
}

-- External functions that return at once, and a queue that always has a word.
abbrev pub reader : DecodeExterns
reader = record {
  unreachable = λ s. ok s;
  not_implemented = λ s. ok s;
  not_implemented_undeclared = λ s. ok s;
  invalid_opcode = λ sys. ok sys;
  try_read_word = λ s. ok (s, true);
}

-- The execute stage.
abbrev pub executor :
    MemctlState → ExecutionPhase → SequencerPhase → Bool → InstDecodedFlags → PilotExecuteState
executor state phase seq offered inst = record {
  sys = machine state offered;
  decoded_inst = inst;
  mucode_control = call_of mu_none;
  mucode_decoded_buffer = add_words;
  control = at_core_op;
  alu_input0 = 0;
  alu_input1 = 0;
  alu_output_latch = 0;
  alu_shifter_carry_bit = false;
  mem_addr = 0x2000;
  mem_data = 0x55aa;
  mem_access_waiting = false;
  mem_access_was_read = false;
  execution_phase = phase;
  sequencer_phase = seq;
}

abbrev pub quiet : ExecuteExterns
quiet = record {
  unreachable = λ s. ok s;
  decode_unreachable = λ s. ok s;
  invalid_opcode = λ sys. ok sys;
}

-- What a local microcode entry may hold before it is assigned.
abbrev pub leftover : MemWriteCtl → MucodeEntry
leftover write = record {
  operation = record add_words { mem_write_ctl = write };
  next = call_of mu_none;
}
