-- ===== src/Execute/Widths/Run.antt =====
-- pilot-cpu/cpu_execute.c and memory_bus.c: any sequence of calls of the execute stage and of ticks of
-- the memory controller.
use hexheld_emu.Execute.{ExecuteExterns, PilotExecuteState}
use hexheld_emu.Execute.Half1.{pilot_execute_half1}
use hexheld_emu.Execute.Half2.{pilot_execute_half2}
use hexheld_emu.Execute.Sequencer.{pilot_execute_sequencer_advance}
use hexheld_emu.Execute.Widths.{Fits, OnlyReports, Sound, machine-Sound}
use hexheld_emu.Execute.Widths.Calls.{
  AllFit, Sound-Steady, Steady, Steady-refl, Steady-trans, advance-Steady,
}
use hexheld_emu.Execute.Widths.Half1.{half1-Sound}
use hexheld_emu.Execute.Widths.Half2.{half2-Sound}
use hexheld_emu.Memory.{pilot_memctl_tick}
use hexheld_emu.Memory.Protocol.{memctl_tick_lem}
use hexheld_emu.Prelude.{Ensures-ok, Outcome, false, ok, ℕ, ◌<◌, ◌^◌, ◌≡◌}
use hexheld_emu.System.{PilotSystem}
use hexheld_emu.Types.{InstDecodedFlags, MucodeEntry}

-- One call.
pub data ExecCall (ext : ExecuteExterns) (inst_at : ℕ → Outcome InstDecodedFlags)
    (s : PilotExecuteState) : PilotExecuteState → Type 0 where
  call_half1 : {t : PilotExecuteState} → pilot_execute_half1 ext s ≡ ok t → ExecCall ext inst_at s t
  call_half2 :
      {t : PilotExecuteState} (junk : ℕ)
      → pilot_execute_half2 ext junk s ≡ ok t
      → ExecCall ext inst_at s t
  call_advance :
      {t : PilotExecuteState} (junk : MucodeEntry)
      → junk.operation.flag_write_mask < 2 ^ 8
      → pilot_execute_sequencer_advance ext junk inst_at s ≡ ok t
      → ExecCall ext inst_at s t
  call_tick :
      {sys : PilotSystem}
      → pilot_memctl_tick s.sys ≡ ok sys
      → ExecCall ext inst_at s (record s { sys = sys })

pub data ExecRun (ext : ExecuteExterns) (inst_at : ℕ → Outcome InstDecodedFlags)
    (s : PilotExecuteState) : PilotExecuteState → Type 0 where
  not_called : ExecRun ext inst_at s s
  called :
      {t u : PilotExecuteState}
      → ExecRun ext inst_at s t
      → ExecCall ext inst_at t u
      → ExecRun ext inst_at s u

-- A tick that returns only lowers `data_valid`.
pub tick-Sound :
    (s : PilotExecuteState) (sys : PilotSystem)
    → pilot_memctl_tick s.sys ≡ ok sys
    → Sound s (record s { sys = sys })
tick-Sound s sys h = rw (memctl_tick_lem s.sys sys h) (
    machine-Sound s (record s.sys.memctl { data_valid = false })
      λ f. (f.machine.addr_reg, f.machine.data_reg_in, f.machine.data_reg_out, f.machine.wait))

module _ (ext : ExecuteExterns) (reports : OnlyReports ext) (inst_at : ℕ → Outcome InstDecodedFlags)
    (words : AllFit inst_at) where
  call-Steady : {s t : PilotExecuteState} → ExecCall ext inst_at s t → Steady s t
  call-Steady {s = s} (call_half1 {t} e) =
      Sound-Steady s t (Ensures-ok (Sound s) _ t (half1-Sound ext reports s) e)
  call-Steady {s = s} (call_half2 {t} junk e) =
      Sound-Steady s t (Ensures-ok (Sound s) _ t (half2-Sound ext reports junk s) e)
  call-Steady {s = s} (call_advance {t} junk byte e) =
      Ensures-ok (Steady s) _ t
        (advance-Steady ext reports.decode_unreachable junk byte inst_at s words) e
  call-Steady {s = s} (call_tick {sys} e) =
      Sound-Steady s (record s { sys = sys }) (tick-Sound s sys e)

  run-Steady : {s t : PilotExecuteState} → ExecRun ext inst_at s t → Steady s t
  run-Steady {s = s} not_called = Steady-refl s
  run-Steady {s = s} (called {t} {u} before call) =
      Steady-trans s t u (run-Steady before) (call-Steady call)

  -- Whatever calls of the execute stage and ticks of the memory controller are made, in any order and however often:
  -- no CPU register and no byte of `hram` changes, and if every integer variable but the pointer is in the range of
  -- its C type at first, then it is in that range afterwards. The variables of
  -- the instructions taken and the mask that the local variable of the microcode decoder holds are in range, and the external reports change nothing.
  pub run-Fits :
      {s t : PilotExecuteState}
      → Fits s
      → ExecRun ext inst_at s t
      → Fits t × (t.sys.core ≡ s.sys.core) × (t.sys.hram ≡ s.sys.hram)
  run-Fits fits calls = let h = run-Steady calls in (h.fits fits, h.core, h.hram)
