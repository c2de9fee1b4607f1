-- ===== src/Execute/Waiting.antt =====
-- pilot-cpu/cpu_execute.c and memory_bus.c: a cycle that needs the data of a read, and the ticks of the
-- memory controller while it waits.
use mathlib.Core.Path.{subst}
use hexheld_emu.Execute.{
  ControlPointer, ExecuteExterns, ExecutionPhase, PilotExecuteState, at_core_op, at_mucode_buffer,
  control_word, controlled, exec_half1_mem_wait, exec_half1_ready, unset_control,
}
use hexheld_emu.Execute.Half1.{enter, execute_half1_mem_wait, pilot_execute_half1, uses_mem_data}
use hexheld_emu.Execute.Half2.{pilot_execute_half2}
use hexheld_emu.Memory.{pilot_memctl_tick}
use hexheld_emu.Memory.Protocol.{BusStep-IsHeld, IsHeld, tick}
use hexheld_emu.Prelude.{arith, inl, inr, ok, refl, sym, true, ℕ, ◌∙◌, ◌≡◌, ◌⊎◌}
use hexheld_emu.System.{PilotSystem, mctl_mem_r_busy}
use hexheld_emu.Types.{ExecuteControlWord}

-- One call: a half cycle, or a tick.
pub data WaitCall (ext : ExecuteExterns) (s : PilotExecuteState) : PilotExecuteState → Type 0 where
  wait_half1 : {t : PilotExecuteState} → pilot_execute_half1 ext s ≡ ok t → WaitCall ext s t
  wait_half2 :
      {t : PilotExecuteState} (junk : ℕ) → pilot_execute_half2 ext junk s ≡ ok t → WaitCall ext s t
  wait_tick :
      {sys : PilotSystem}
      → pilot_memctl_tick s.sys ≡ ok sys
      → WaitCall ext s (record s { sys = sys })

pub data WaitRun (ext : ExecuteExterns) (s : PilotExecuteState) : PilotExecuteState → Type 0 where
  not_waited : WaitRun ext s s
  waited : {t u : PilotExecuteState} → WaitRun ext s t → WaitCall ext t u → WaitRun ext s u

-- The first half stands before its operands, for a control word that uses the data of the read at
-- `addr` that is held.
pub record IsWaiting (ctl : ExecuteControlWord) (addr : ℕ) (s : PilotExecuteState) : Type 0 where
  pub phase : (s.execution_phase ≡ exec_half1_ready) ⊎ (s.execution_phase ≡ exec_half1_mem_wait)
  pub waiting : s.mem_access_waiting ≡ true
  pub word : controlled s ≡ ok ctl
  pub needed : uses_mem_data ctl ≡ true
  pub held : IsHeld mctl_mem_r_busy addr s.sys

-- The control word does not depend on the phase or on the machine.
entered_word :
    (s : PilotExecuteState) (phase : ExecutionPhase) (sys : PilotSystem) (p : ControlPointer)
    (ctl : ExecuteControlWord)
    → control_word s p ≡ ok ctl
    → control_word (record s { sys = sys; execution_phase = phase }) p ≡ ok ctl
entered_word s phase sys unset_control ctl h = h
entered_word s phase sys at_mucode_buffer ctl h = h
entered_word s phase sys at_core_op ctl h = h

ok-inj : {s t : PilotExecuteState} → ok s ≡ ok t → s ≡ t
ok-inj h = cc

module _ (ext : ExecuteExterns) {ctl : ExecuteControlWord} {addr : ℕ} where
  same-wait : (s : PilotExecuteState) → IsWaiting ctl addr s → execute_half1_mem_wait s ≡ ok s
  unfolding execute_half1_mem_wait
  same-wait s h = ground (arith, h.waiting, h.held.silent, h.word, h.needed)

  entered :
      (s : PilotExecuteState)
      → IsWaiting ctl addr s
      → IsWaiting ctl addr (enter exec_half1_mem_wait s)
  entered s h = record {
    phase = inr refl;
    waiting = h.waiting;
    word = entered_word s exec_half1_mem_wait s.sys s.control ctl h.word;
    needed = h.needed;
    held = h.held;
  }

  half1-IsWaiting :
      (s : PilotExecuteState)
      → IsWaiting ctl addr s
      → pilot_execute_half1 ext s ≡ ok (enter exec_half1_mem_wait s)
  unfolding pilot_execute_half1
  half1-IsWaiting s h = elim h.phase [
    | inl ready ↦ rw ready (rw (same-wait (enter exec_half1_mem_wait s) (entered s h)) refl)
    | inr standing ↦ rw standing (rw (same-wait (enter exec_half1_mem_wait s) (entered s h)) refl)
  ]

  half2-IsWaiting :
      (junk : ℕ) (s : PilotExecuteState)
      → IsWaiting ctl addr s
      → pilot_execute_half2 ext junk s ≡ ok s
  unfolding pilot_execute_half2
  half2-IsWaiting junk s h = elim h.phase [
    | inl ready ↦ rw ready refl
    | inr standing ↦ rw standing refl
  ]

  call-IsWaiting :
      {s t : PilotExecuteState} → WaitCall ext s t → IsWaiting ctl addr s → IsWaiting ctl addr t
  call-IsWaiting {s = s} (wait_half1 e) h =
      subst (IsWaiting ctl addr) (ok-inj (sym (half1-IsWaiting s h) ∙ e)) (entered s h)
  call-IsWaiting {s = s} (wait_half2 junk e) h =
      subst (IsWaiting ctl addr) (ok-inj (sym (half2-IsWaiting junk s h) ∙ e)) h
  call-IsWaiting {s = s} (wait_tick {sys} e) h = record {
    phase = h.phase;
    waiting = h.waiting;
    word = entered_word s s.execution_phase sys s.control ctl h.word;
    needed = h.needed;
    held = BusStep-IsHeld (tick e) h.held;
  }

  -- Where the first half stands before its operands, an access is pending, the control word uses
  -- its data and the memory controller holds the read without announcing data: whatever half
  -- cycles and ticks follow, this is still so.
  pub waits_forever :
      {s t : PilotExecuteState} → IsWaiting ctl addr s → WaitRun ext s t → IsWaiting ctl addr t
  waits_forever h not_waited = h
  waits_forever h (waited before call) = call-IsWaiting call (waits_forever h before)
