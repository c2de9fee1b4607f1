-- ===== src/Execute/Widths/Asserting.antt =====
-- pilot-cpu/cpu_execute.c: the widths through the assertion of a memory access.
use hexheld_emu.Execute.{ExecutionPhase, PilotExecuteState}
use hexheld_emu.Execute.Half1.{assert_access, enter, go_on, is_mem_read}
use hexheld_emu.Execute.Widths.{Fits, Sound, Sound-trans, access-Sound, enter-Sound, machine-Sound}
use hexheld_emu.Execute.Widths.Steps.{choice-Sound, pair-Sound}
use hexheld_emu.Memory.{is_ready, pilot_mem_addr_read_assert, pilot_mem_addr_write_assert}
use hexheld_emu.Prelude.{
  Bool, Bool-cases, false, if◌then◌else◌, inl, inr, refl, true, ℕ, ◌<◌, ◌^◌, ◌≡◌,
}
use hexheld_emu.System.{MemctlState, PilotMemctl, PilotSystem, mctl_mem_r_busy, mctl_mem_w_busy}
use hexheld_emu.Types.{ExecuteControlWord}

-- What the controller holds after a request that it takes.
abbrev asked : PilotMemctl → ℕ → ℕ → MemctlState → PilotMemctl
asked m addr word busy = record m { addr_reg = addr; data_reg_out = word; state = busy }

asked-Sound :
    (s : PilotExecuteState) (word : ℕ) (busy : MemctlState)
    → (Fits s → word < 2 ^ 16)
    → Sound s (record s { sys = record s.sys { memctl = asked s.sys.memctl s.mem_addr word busy } })
asked-Sound s word busy h =
    machine-Sound s (asked s.sys.memctl s.mem_addr word busy)
      λ f. (f.addr, f.machine.data_reg_in, h f, f.machine.wait)

-- The two requests of a controller that is not idle.
read-taken :
    (sys : PilotSystem) (addr : ℕ)
    → is_ready sys.memctl.state ≡ false
    → pilot_mem_addr_read_assert sys addr ≡ (sys, sys.memctl.state)
unfolding pilot_mem_addr_read_assert
read-taken sys addr h = rw h refl

write-taken :
    (sys : PilotSystem) (addr word : ℕ)
    → is_ready sys.memctl.state ≡ false
    → pilot_mem_addr_write_assert sys addr word ≡ (sys, sys.memctl.state)
unfolding pilot_mem_addr_write_assert
write-taken sys addr word h = rw h refl

access-taken :
    (ctl : ExecuteControlWord) (s : PilotExecuteState)
    → is_ready s.sys.memctl.state ≡ false
    → Sound s (assert_access ctl s).0
unfolding assert_access
access-taken ctl s h = rw (read-taken s.sys s.mem_addr h) (
    rw (write-taken s.sys s.mem_addr s.mem_data h) (
      rw h (
        pair-Sound (is_mem_read ctl.mem_write_ctl) s _ _ (access-Sound true true s)
          (access-Sound true s.mem_access_was_read s))))

access-free :
    (ctl : ExecuteControlWord) (s : PilotExecuteState)
    → is_ready s.sys.memctl.state ≡ true
    → Sound s (assert_access ctl s).0
unfolding assert_access pilot_mem_addr_read_assert pilot_mem_addr_write_assert
access-free ctl s h = rw h (
    pair-Sound (is_mem_read ctl.mem_write_ctl) s _ _
      (asked-Sound s s.sys.memctl.data_reg_out mctl_mem_r_busy λ f. f.machine.data_reg_out)
      (asked-Sound s s.mem_data mctl_mem_w_busy λ f. f.word))

-- The state after the assertion of an access, whatever the controller answers.
pub assert_access-Sound :
    (ctl : ExecuteControlWord) (s : PilotExecuteState) → Sound s (assert_access ctl s).0
assert_access-Sound ctl s = elim (Bool-cases (is_ready s.sys.memctl.state)) [
  | inl h ↦ access-free ctl s h
  | inr h ↦ access-taken ctl s h
]

-- The end of an assertion, in either half.
go_on-Sound :
    (phase : ExecutionPhase) (s : PilotExecuteState) (r : PilotExecuteState × Bool)
    → Sound s r.0
    → Sound s (go_on phase r)
go_on-Sound phase s (t, true) h = Sound-trans s t (enter phase t) h (enter-Sound phase t)
go_on-Sound phase s (t, false) h = h

pub assertion-Sound :
    (b : Bool) (phase : ExecutionPhase) (ctl : ExecuteControlWord) (s : PilotExecuteState)
    → Sound s (if b then go_on phase (assert_access ctl s) else enter phase s)
assertion-Sound b phase ctl s =
    choice-Sound b s _ _ (go_on-Sound phase s (assert_access ctl s) (assert_access-Sound ctl s))
      (enter-Sound phase s)
