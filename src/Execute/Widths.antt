-- ===== src/Execute/Widths.antt =====
-- pilot-cpu/cpu_execute.c: the widths of the variables of the execute stage, and what the half cycles
-- leave alone.
pub mod Steps
pub mod Fetch
pub mod Asserting
pub mod Half1
pub mod Latch
pub mod Half2
pub mod Calls
pub mod Run
use hexheld_emu.Execute.{
  ControlPointer, ExecuteExterns, ExecutionPhase, PilotExecuteState, SequencerPhase,
}
use hexheld_emu.Execute.Half1.{enter}
use hexheld_emu.Prelude.{Bool, ok, refl, ℕ, ◌<◌, ◌^◌, ◌∙◌, ◌≡◌}
use hexheld_emu.System.{PilotCpuRegs, PilotInterconnect, PilotMemctl, PilotSystem}
use hexheld_emu.System.Widths.{InstFits, MachineFits}
use hexheld_emu.Types.{ExecuteControlWord, InstDecodedFlags, MucodeEntrySpec}

-- The external reports of an impossible case and of an invalid opcode return, and change nothing.
pub record OnlyReports (ext : ExecuteExterns) : Type 0 where
  pub unreachable : (s : PilotExecuteState) → ext.unreachable s ≡ ok s
  pub decode_unreachable : (s : PilotExecuteState) → ext.decode_unreachable s ≡ ok s
  pub invalid_opcode : (sys : PilotSystem) → ext.invalid_opcode sys ≡ ok sys

-- The variables of the machine and of the execute stage are in the ranges of their C types.
pub record Fits (s : PilotExecuteState) : Type 0 where
  pub machine : MachineFits s.sys
  pub inst : InstFits s.decoded_inst
  pub entry : s.mucode_control.reg_select < 2 ^ 8
  pub buffer : s.mucode_decoded_buffer.flag_write_mask < 2 ^ 8
  pub input0 : s.alu_input0 < 2 ^ 32
  pub input1 : s.alu_input1 < 2 ^ 32
  pub output : s.alu_output_latch < 2 ^ 32
  pub addr : s.mem_addr < 2 ^ 32
  pub word : s.mem_data < 2 ^ 16

-- What neither half cycle assigns: the registers, the lines between the stages, `hram`, the
-- instruction, and the variables of the sequencer.
pub record Kept : Type 0 where
  pub core : PilotCpuRegs
  pub lines : PilotInterconnect
  pub hram : ℕ → ℕ
  pub inst : InstDecodedFlags
  pub control : ControlPointer
  pub entry : MucodeEntrySpec
  pub phase : SequencerPhase

abbrev pub kept : PilotExecuteState → Kept
kept s = record {
  core = s.sys.core;
  lines = s.sys.interconnects;
  hram = s.sys.hram;
  inst = s.decoded_inst;
  control = s.control;
  entry = s.mucode_control;
  phase = s.sequencer_phase;
}

-- A step from `s` to `t` that keeps that, and the widths.
abbrev pub Sound : PilotExecuteState → PilotExecuteState → Type 0
Sound s t = (kept t ≡ kept s) × (Fits s → Fits t)

pub Sound-refl : (s : PilotExecuteState) → Sound s s
Sound-refl s = (refl, λ f. f)

pub Sound-trans : (s t u : PilotExecuteState) → Sound s t → Sound t u → Sound s u
Sound-trans s t u (h, f) (k, g) = (k ∙ h, λ x. g (f x))

-- The assignments of the half cycles.
pub enter-Sound : (phase : ExecutionPhase) (s : PilotExecuteState) → Sound s (enter phase s)
enter-Sound phase s = (
  refl,
  λ f. record {
    machine = f.machine;
    inst = f.inst;
    entry = f.entry;
    buffer = f.buffer;
    input0 = f.input0;
    input1 = f.input1;
    output = f.output;
    addr = f.addr;
    word = f.word;
  },
)

pub access-Sound :
    (waiting read : Bool) (s : PilotExecuteState)
    → Sound s (record s { mem_access_waiting = waiting; mem_access_was_read = read })
access-Sound waiting read s = (
  refl,
  λ f. record {
    machine = f.machine;
    inst = f.inst;
    entry = f.entry;
    buffer = f.buffer;
    input0 = f.input0;
    input1 = f.input1;
    output = f.output;
    addr = f.addr;
    word = f.word;
  },
)

pub buffer-Sound :
    (ctl : ExecuteControlWord) (s : PilotExecuteState)
    → (Fits s → ctl.flag_write_mask < 2 ^ 8)
    → Sound s (record s { mucode_decoded_buffer = ctl })
buffer-Sound ctl s h = (
  refl,
  λ f. record {
    machine = f.machine;
    inst = f.inst;
    entry = f.entry;
    buffer = h f;
    input0 = f.input0;
    input1 = f.input1;
    output = f.output;
    addr = f.addr;
    word = f.word;
  },
)

pub inputs-Sound :
    (s t : PilotExecuteState) (a b : ℕ)
    → Sound s t
    → (Fits s → a < 2 ^ 32)
    → (Fits s → b < 2 ^ 32)
    → Sound s (record t { alu_input0 = a; alu_input1 = b })
inputs-Sound s t a b r h k = (
  r.0,
  λ f. record {
    machine = (r.1 f).machine;
    inst = (r.1 f).inst;
    entry = (r.1 f).entry;
    buffer = (r.1 f).buffer;
    input0 = h f;
    input1 = k f;
    output = (r.1 f).output;
    addr = (r.1 f).addr;
    word = (r.1 f).word;
  },
)

pub output-Sound :
    (s : PilotExecuteState) (v : ℕ) (carry : Bool)
    → (Fits s → v < 2 ^ 32)
    → Sound s (record s { alu_output_latch = v; alu_shifter_carry_bit = carry })
output-Sound s v carry h = (
  refl,
  λ f. record {
    machine = f.machine;
    inst = f.inst;
    entry = f.entry;
    buffer = f.buffer;
    input0 = f.input0;
    input1 = f.input1;
    output = h f;
    addr = f.addr;
    word = f.word;
  },
)

pub memory-Sound :
    (s : PilotExecuteState) (addr word : ℕ)
    → (Fits s → addr < 2 ^ 32)
    → (Fits s → word < 2 ^ 16)
    → Sound s (record s { mem_addr = addr; mem_data = word })
memory-Sound s addr word h k = (
  refl,
  λ f. record {
    machine = f.machine;
    inst = f.inst;
    entry = f.entry;
    buffer = f.buffer;
    input0 = f.input0;
    input1 = f.input1;
    output = f.output;
    addr = h f;
    word = k f;
  },
)

-- An assertion to the memory controller.
pub machine-Sound :
    (s : PilotExecuteState) (m : PilotMemctl)
    → (Fits s
        → (m.addr_reg < 2 ^ 32)
          × (m.data_reg_in < 2 ^ 16)
          × (m.data_reg_out < 2 ^ 16)
          × (m.wait_cycles_left < 2 ^ 64))
    → Sound s (record s { sys = record s.sys { memctl = m } })
machine-Sound s m h = (
  refl,
  λ f. record {
    machine = record {
      regs = f.machine.regs;
      wf = f.machine.wf;
      pgc = f.machine.pgc;
      repi = f.machine.repi;
      repr = f.machine.repr;
      addr_reg = (h f).0;
      data_reg_in = (h f).1;
      data_reg_out = (h f).2;
      wait = (h f).3;
      branch_k = f.machine.branch_k;
      branch_addr = f.machine.branch_addr;
      hram = f.machine.hram;
    };
    inst = f.inst;
    entry = f.entry;
    buffer = f.buffer;
    input0 = f.input0;
    input1 = f.input1;
    output = f.output;
    addr = f.addr;
    word = f.word;
  },
)
