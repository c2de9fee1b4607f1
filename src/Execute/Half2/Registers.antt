-- ===== src/Execute/Half2/Registers.antt =====
-- pilot-cpu/cpu_execute.c: what the second half cycle leaves alone.
use hexheld_emu.Execute.{
  ExecuteExterns, PilotExecuteState, controlled, exec_half2_mem_assert, exec_half2_result_latch,
}
use hexheld_emu.Execute.Half1.{assert_access, enter}
use hexheld_emu.Execute.Half2.{
  at_half2_assert, at_half2_prepare, at_half2_ready, at_result_latch, execute_half2_mem_assert,
  execute_half2_mem_prepare, execute_half2_result_latch, from_half2, latches_half2,
  pilot_execute_half2, prepare_half2,
}
use hexheld_emu.Memory.{pilot_mem_addr_read_assert, pilot_mem_addr_write_assert}
use hexheld_emu.Prelude.{
  Bool, Outcome, Returns, Returns-bind, Returns-weaken, arith, false, if◌then◌else◌, ok, refl, true,
  ℕ, ◌>>=◌, ◌∙◌, ◌≡◌,
}
use hexheld_emu.Types.{
  ExecuteControlWord, MemLatchCtl, MemWriteCtl, mem_latch_half2, mem_latch_half2_mar,
  mem_write_from_src1,
}

-- `execute_unreachable_` returns the state as it is.
abbrev pub Silent : ExecuteExterns → Type 0
Silent ext = (s : PilotExecuteState) → ext.unreachable s ≡ ok s

-- The registers are those of `s`.
abbrev pub SameCore : PilotExecuteState → PilotExecuteState → Type 0
SameCore s t = t.sys.core ≡ s.sys.core

-- And the control word is `ctl`.
abbrev Same : ExecuteControlWord → PilotExecuteState → PilotExecuteState → Type 0
Same ctl s t = SameCore s t × (controlled t ≡ ok ctl)

result_latch-SameCore :
    (junk : ℕ) (s : PilotExecuteState) (ctl : ExecuteControlWord)
    → controlled s ≡ ok ctl
    → Returns (Same ctl s) (execute_half2_result_latch junk s)
unfolding execute_half2_result_latch
result_latch-SameCore junk s ctl h = rw h (refl, h)

assert-SameCore :
    (s : PilotExecuteState) (ctl : ExecuteControlWord)
    → controlled s ≡ ok ctl
    → Returns (Same ctl s) (execute_half2_mem_assert s)
unfolding execute_half2_mem_assert assert_access pilot_mem_addr_read_assert
    pilot_mem_addr_write_assert
assert-SameCore s ctl h = ground arith

module _ (ext : ExecuteExterns) (silent : Silent ext) where
  -- The preparation, once the control word is read.
  by_ctl :
      (latch : MemLatchCtl) (write : MemWriteCtl) (s : PilotExecuteState) (ctl : ExecuteControlWord)
      → controlled s ≡ ok ctl
      → Returns (Same ctl s) (
          (if from_half2 latch
            then prepare_half2 ext write
                (if latches_half2 latch then record s { mem_addr = s.alu_output_latch } else s)
            else ok (if latches_half2 latch then record s { mem_addr = s.alu_output_latch } else s))
          >>= λ s2. ok (enter exec_half2_mem_assert s2))
  unfolding prepare_half2
  by_ctl mem_latch_half2 mem_write_from_src1 s ctl h =
      rw (silent (record s { mem_addr = s.alu_output_latch })) (refl, h)
  by_ctl mem_latch_half2_mar mem_write_from_src1 s ctl h = rw (silent s) (refl, h)
  by_ctl _ _ s ctl h = (refl, h)

  prepare-SameCore :
      (s : PilotExecuteState) (ctl : ExecuteControlWord)
      → controlled s ≡ ok ctl
      → Returns (Same ctl s) (execute_half2_mem_prepare ext s)
  unfolding execute_half2_mem_prepare prepare_half2
  prepare-SameCore s ctl h = rw h (by_ctl ctl.mem_latch_ctl ctl.mem_write_ctl s ctl h)

  -- A block of the half, where it is entered and where it is not.
  block :
      (b : Bool) (m : Outcome PilotExecuteState) (s t : PilotExecuteState)
      (ctl : ExecuteControlWord)
      → Returns (Same ctl t) m
      → Same ctl s t
      → Returns (Same ctl s) (if b then m else ok t)
  block true m s t ctl h k = Returns-weaken (Same ctl t) (Same ctl s) m h λ u r. (r.0 ∙ k.0, r.1)
  block false m s t ctl h k = k

  begin_half2 :
      (b : Bool) (s : PilotExecuteState) (ctl : ExecuteControlWord)
      → controlled s ≡ ok ctl
      → Same ctl s (if b then enter exec_half2_result_latch s else s)
  begin_half2 true s ctl h = (refl, h)
  begin_half2 false s ctl h = (refl, h)

  -- Where the control word is set, the second half cycle returns, and writes no register: neither
  -- the result on the latch nor the flags that it computes reach them. A call of
  -- `execute_unreachable_` is assumed to change nothing.
  pub execute_half2-SameCore :
      (junk : ℕ) (s : PilotExecuteState) (ctl : ExecuteControlWord)
      → controlled s ≡ ok ctl
      → Returns (SameCore s) (pilot_execute_half2 ext junk s)
  unfolding pilot_execute_half2
  execute_half2-SameCore junk s ctl h =
      let s0 = if at_half2_ready s.execution_phase then enter exec_half2_result_latch s else s in
      let k0 = begin_half2 (at_half2_ready s.execution_phase) s ctl h in
      Returns-bind (Same ctl s) (SameCore s)
        (if at_result_latch s0.execution_phase then execute_half2_result_latch junk s0 else ok s0) _
        (block (at_result_latch s0.execution_phase) (execute_half2_result_latch junk s0) s s0 ctl
          (result_latch-SameCore junk s0 ctl k0.1) k0)
        λ s1 k1.
          Returns-bind (Same ctl s) (SameCore s)
            (if at_half2_prepare s1.execution_phase
              then execute_half2_mem_prepare ext s1
              else ok s1)
            _
            (block (at_half2_prepare s1.execution_phase) (execute_half2_mem_prepare ext s1) s s1 ctl
              (prepare-SameCore s1 ctl k1.1) k1)
            λ s2 k2.
              Returns-weaken (Same ctl s) (SameCore s)
                (if at_half2_assert s2.execution_phase then execute_half2_mem_assert s2 else ok s2)
                (block (at_half2_assert s2.execution_phase) (execute_half2_mem_assert s2) s s2 ctl
                  (assert-SameCore s2 ctl k2.1) k2)
                λ u r. r.0
