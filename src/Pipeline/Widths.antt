-- ===== src/Pipeline/Widths.antt =====
-- The two stages and the memory controller: what no call writes, and the widths of all variables.
use hexheld_emu.Decode.{DecodeExterns, PilotDecodeState}
use hexheld_emu.Decode.Widths.{DecodeFits, LatchesMar, LeavesMachine, Unmoved, unassigned}
use hexheld_emu.Decode.Widths.Stage.{half1-Unmoved, half2-Unmoved}
use hexheld_emu.Execute.{ExecuteExterns, PilotExecuteState}
use hexheld_emu.Execute.Widths.{Fits, OnlyReports, Sound}
use hexheld_emu.Execute.Widths.Calls.{Sound-Steady, Steady, advance-Steady}
use hexheld_emu.Execute.Widths.Half1.{half1-Sound}
use hexheld_emu.Execute.Widths.Half2.{half2-Sound}
use hexheld_emu.Execute.Widths.Run.{tick-Sound}
use hexheld_emu.Pipeline.{
  PipeReach, PipeStep, Pipeline, after_decode, after_execute, decode_half1, decode_half2,
  execute_half1, execute_half2, memory_tick, no_step, one_more, sequence,
}
use hexheld_emu.Prelude.{Ensures-ok, refl, ℕ, ◌<◌, ◌^◌, ◌∙◌, ◌≡◌}
use hexheld_emu.System.{PilotCpuRegs, PilotSystem}
use hexheld_emu.System.Widths.{MachineFits}

-- Every integer variable of both stages and of the machine is in the range of its C type, but for the
-- pointer `decoded_inst`.
pub record AllWidths (p : Pipeline) : Type 0 where
  pub decode : DecodeFits p.decode
  pub execute : Fits p.execute

-- Both stages see the registers `core` and the array `hram`.
pub record SeesMachine (core : PilotCpuRegs) (hram : ℕ → ℕ) (p : Pipeline) : Type 0 where
  pub decode_core : p.decode.sys.core ≡ core
  pub decode_hram : p.decode.sys.hram ≡ hram
  pub execute_core : p.execute.sys.core ≡ core
  pub execute_hram : p.execute.sys.hram ≡ hram

abbrev pub Unchanged : PilotCpuRegs → (ℕ → ℕ) → Pipeline → Type 0
Unchanged core hram p = AllWidths p × SeesMachine core hram p

-- A stage's own variables, with the other stage's machine.
decode_with :
    (d : PilotDecodeState) (sys : PilotSystem)
    → DecodeFits d
    → MachineFits sys
    → DecodeFits (record d { sys = sys })
decode_with d sys f m = record {
  machine = m;
  inst = f.inst;
  pgc = f.pgc;
  length = f.length;
  wanted = f.wanted;
  count = f.count;
}

execute_with :
    (e : PilotExecuteState) (sys : PilotSystem)
    → Fits e
    → MachineFits sys
    → Fits (record e { sys = sys })
execute_with e sys f m = record {
  machine = m;
  inst = f.inst;
  entry = f.entry;
  buffer = f.buffer;
  input0 = f.input0;
  input1 = f.input1;
  output = f.output;
  addr = f.addr;
  word = f.word;
}

-- What the local variable of the microcode decoder holds at each call of the sequencer is a control
-- word whose mask is a byte.
abbrev pub StepHoldsByte :
    {dext : DecodeExterns} {eext : ExecuteExterns} {p q : Pipeline}
    → PipeStep dext eext p q
    → Type 0
StepHoldsByte (sequence junk e) = junk.operation.flag_write_mask < 2 ^ 8
StepHoldsByte _ = Unit

abbrev pub HoldsByte :
    {dext : DecodeExterns} {eext : ExecuteExterns} {p q : Pipeline}
    → PipeReach dext eext p q
    → Type 0
HoldsByte no_step = Unit
HoldsByte (one_more before step) = HoldsByte before × StepHoldsByte step

module _ {core : PilotCpuRegs} {hram : ℕ → ℕ} where
  after_decode-Unchanged :
      (p : Pipeline) (d : PilotDecodeState)
      → Unmoved p.decode d
      → Unchanged core hram p
      → Unchanged core hram (after_decode p d)
  after_decode-Unchanged p d h (w, m) =
      let f = h.fits w.decode in
      (
        record { decode = f; execute = execute_with p.execute d.sys w.execute f.machine },
        record {
          decode_core = h.core ∙ m.decode_core;
          decode_hram = h.hram ∙ m.decode_hram;
          execute_core = h.core ∙ m.decode_core;
          execute_hram = h.hram ∙ m.decode_hram;
        },
      )

  after_execute-Unchanged :
      (p : Pipeline) (e : PilotExecuteState)
      → Steady p.execute e
      → Unchanged core hram p
      → Unchanged core hram (after_execute p e)
  after_execute-Unchanged p e h (w, m) =
      let f = h.fits w.execute in
      (
        record { decode = decode_with p.decode e.sys w.decode f.machine; execute = f },
        record {
          decode_core = h.core ∙ m.execute_core;
          decode_hram = h.hram ∙ m.execute_hram;
          execute_core = h.core ∙ m.execute_core;
          execute_hram = h.hram ∙ m.execute_hram;
        },
      )

  module _ (dext : DecodeExterns) (leaves : LeavesMachine dext) (eext : ExecuteExterns)
      (reports : OnlyReports eext) where
    step-Unchanged :
        {p q : Pipeline} (step : PipeStep dext eext p q)
        → StepHoldsByte step
        → Unchanged core hram p
        → Unchanged core hram q
    step-Unchanged {p = p} (decode_half1 {d} e) byte k =
        after_decode-Unchanged p d
          (Ensures-ok (Unmoved p.decode) _ d (half1-Unmoved dext leaves p.decode) e) k
    step-Unchanged {p = p} (decode_half2 {d} e) byte k =
        after_decode-Unchanged p d
          (Ensures-ok (Unmoved p.decode) _ d (half2-Unmoved dext leaves p.decode) e) k
    step-Unchanged {p = p} (sequence {e} junk eq) byte k =
        after_execute-Unchanged p e
          (Ensures-ok (Steady p.execute) _ e
            (advance-Steady eext reports.decode_unreachable junk byte _ p.execute
              (λ addr. k.0.decode.inst))
            eq)
          k
    step-Unchanged {p = p} (execute_half1 {e} eq) byte k =
        after_execute-Unchanged p e
          (Sound-Steady p.execute e
            (Ensures-ok (Sound p.execute) _ e (half1-Sound eext reports p.execute) eq))
          k
    step-Unchanged {p = p} (execute_half2 {e} junk eq) byte k =
        after_execute-Unchanged p e
          (Sound-Steady p.execute e
            (Ensures-ok (Sound p.execute) _ e (half2-Sound eext reports junk p.execute) eq))
          k
    step-Unchanged {p = p} (memory_tick {sys} eq) byte k =
        after_execute-Unchanged p (record p.execute { sys = sys })
          (Sound-Steady p.execute _ (tick-Sound p.execute sys eq)) k

    -- Whatever calls of both stages and ticks of the memory controller are made, in any order and
    -- however often: if every integer variable of the machine and of both stages, but for the
    -- pointer `decoded_inst`, is in the range of its C type at first, then it is afterwards, and
    -- the CPU registers and `hram`, as either stage sees them, are what they were. What the local
    -- variable of the microcode decoder holds before it is assigned has a mask that is a byte. The
    -- external functions of the decode stage are assumed to write no register and no byte of
    -- `hram` and to keep the ranges, and the reports of the execute stage to change nothing.
    pub reach-Unchanged :
        {p q : Pipeline} (calls : PipeReach dext eext p q)
        → HoldsByte calls
        → Unchanged core hram p
        → Unchanged core hram q
    reach-Unchanged no_step bytes k = k
    reach-Unchanged (one_more before step) (bytes, byte) k =
        step-Unchanged step byte (reach-Unchanged before bytes k)

-- What an instruction inherits from the one before.
pub record Inherits (p q : Pipeline) : Type 0 where
  pub rest : unassigned q.decode.work_regs ≡ unassigned p.decode.work_regs
  pub latch : LatchesMar p.decode.work_regs → LatchesMar q.decode.work_regs

module _ (dext : DecodeExterns) (leaves : LeavesMachine dext) (eext : ExecuteExterns) where
  step-Inherits : {p q : Pipeline} → PipeStep dext eext p q → Inherits p q
  step-Inherits {p = p} (decode_half1 {d} e) =
      let h = Ensures-ok (Unmoved p.decode) _ d (half1-Unmoved dext leaves p.decode) e in
      record { rest = h.rest; latch = h.latch }
  step-Inherits {p = p} (decode_half2 {d} e) =
      let h = Ensures-ok (Unmoved p.decode) _ d (half2-Unmoved dext leaves p.decode) e in
      record { rest = h.rest; latch = h.latch }
  step-Inherits (sequence junk eq) = record { rest = refl; latch = λ e. e }
  step-Inherits (execute_half1 eq) = record { rest = refl; latch = λ e. e }
  step-Inherits (execute_half2 junk eq) = record { rest = refl; latch = λ e. e }
  step-Inherits (memory_tick eq) = record { rest = refl; latch = λ e. e }

  -- Whatever calls of both stages and ticks of the memory controller are made: the fields that
  -- `Unassigned` lists, among them the offset of the second operand, the override and the branch
  -- of an instruction, are those of the initial state; and once an instruction has had
  -- `mem_latch_ctl` set for a destination in memory, it stays set. The external functions of the
  -- decode stage are assumed to leave these fields, the registers and `hram` alone and to keep the
  -- ranges.
  pub reach-Inherits : {p q : Pipeline} → PipeReach dext eext p q → Inherits p q
  reach-Inherits no_step = record { rest = refl; latch = λ e. e }
  reach-Inherits (one_more before step) =
      let h = reach-Inherits before in
      let k = step-Inherits step in
      record { rest = k.rest ∙ h.rest; latch = λ e. k.latch (h.latch e) }
