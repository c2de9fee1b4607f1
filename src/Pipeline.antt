-- ===== src/Pipeline.antt =====
-- pilot-cpu/cpu_decode.c and cpu_execute.c: the two stages over one machine, and the handover of an
-- instruction from one to the other.
pub mod Handover
pub mod Widths
pub mod Arithmetic
pub mod Instruction
use hexheld_emu.Decode.{DecodeExterns, PilotDecodeState}
use hexheld_emu.Decode.Stage.{pilot_decode_half1, pilot_decode_half2}
use hexheld_emu.Execute.{ExecuteExterns, PilotExecuteState}
use hexheld_emu.Execute.Half1.{pilot_execute_half1}
use hexheld_emu.Execute.Half2.{pilot_execute_half2}
use hexheld_emu.Execute.Sequencer.{pilot_execute_sequencer_advance}
use hexheld_emu.Memory.{pilot_memctl_tick}
use hexheld_emu.Prelude.{ok, ℕ, ◌≡◌}
use hexheld_emu.System.{PilotSystem}
use hexheld_emu.Types.{MucodeEntry}

-- Both structures point to the same machine, and `interconnects.decoded_inst` to the decoder's `work_regs`:
-- a step of one stage is followed by the other stage's view of the machine.
pub record Pipeline : Type 0 where
  pub decode : PilotDecodeState
  pub execute : PilotExecuteState

abbrev pub after_decode : Pipeline → PilotDecodeState → Pipeline
after_decode p d = record { decode = d; execute = record p.execute { sys = d.sys } }

abbrev pub after_execute : Pipeline → PilotExecuteState → Pipeline
after_execute p e = record { decode = record p.decode { sys = e.sys }; execute = e }

-- One call: a half cycle of either stage, an advance of the sequencer, or a tick of the memory
-- controller.
pub data PipeStep (dext : DecodeExterns) (eext : ExecuteExterns) (p : Pipeline)
    : Pipeline → Type 0 where
  decode_half1 :
      {d : PilotDecodeState}
      → pilot_decode_half1 dext p.decode ≡ ok d
      → PipeStep dext eext p (after_decode p d)
  decode_half2 :
      {d : PilotDecodeState}
      → pilot_decode_half2 dext p.decode ≡ ok d
      → PipeStep dext eext p (after_decode p d)
  sequence :
      {e : PilotExecuteState} (junk : MucodeEntry)
      → pilot_execute_sequencer_advance eext junk (λ addr. ok p.decode.work_regs) p.execute ≡ ok e
      → PipeStep dext eext p (after_execute p e)
  execute_half1 :
      {e : PilotExecuteState}
      → pilot_execute_half1 eext p.execute ≡ ok e
      → PipeStep dext eext p (after_execute p e)
  execute_half2 :
      {e : PilotExecuteState} (junk : ℕ)
      → pilot_execute_half2 eext junk p.execute ≡ ok e
      → PipeStep dext eext p (after_execute p e)
  memory_tick :
      {sys : PilotSystem}
      → pilot_memctl_tick p.execute.sys ≡ ok sys
      → PipeStep dext eext p (after_execute p (record p.execute { sys = sys }))

pub data PipeReach (dext : DecodeExterns) (eext : ExecuteExterns) (p : Pipeline)
    : Pipeline → Type 0 where
  no_step : PipeReach dext eext p p
  one_more :
      {q r : Pipeline} → PipeReach dext eext p q → PipeStep dext eext q r → PipeReach dext eext p r
