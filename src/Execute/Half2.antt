-- ===== src/Execute/Half2.antt =====
-- pilot-cpu/cpu_execute.c: the second half cycle of the execute stage.
pub mod Registers
pub mod Assertions
use hexheld_emu.Execute.{
  ExecuteExterns, ExecutionPhase, PilotExecuteState, controlled, exec_advance_sequencer,
  exec_half2_mem_assert, exec_half2_mem_prepare, exec_half2_ready, exec_half2_result_latch,
}
use hexheld_emu.Execute.Alu.{alu_compute}
use hexheld_emu.Execute.Half1.{assert_access, enter, go_on}
use hexheld_emu.Prelude.{
  Bool, Outcome, bit_and, false, if◌then◌else◌, not, ok, true, u16, ℕ, ◌&&◌, ◌>>=◌,
}
use hexheld_emu.Types.{
  MemLatchCtl, MemWriteCtl, mem_latch_half2, mem_latch_half2_mar, mem_read_ctl, mem_write_from_dest,
  mem_write_from_mdr, mem_write_from_src1,
}

-- `execution_phase == …`.
abbrev pub at_half2_ready : ExecutionPhase → Bool
at_half2_ready exec_half2_ready = true
at_half2_ready _ = false

abbrev pub at_result_latch : ExecutionPhase → Bool
at_result_latch exec_half2_result_latch = true
at_result_latch _ = false

abbrev pub at_half2_prepare : ExecutionPhase → Bool
at_half2_prepare exec_half2_mem_prepare = true
at_half2_prepare _ = false

abbrev pub at_half2_assert : ExecutionPhase → Bool
at_half2_assert exec_half2_mem_assert = true
at_half2_assert _ = false

-- `mem_latch_ctl == MEM_LATCH_HALF2`, `mem_latch_ctl >= MEM_LATCH_HALF2`.
abbrev pub latches_half2 : MemLatchCtl → Bool
latches_half2 mem_latch_half2 = true
latches_half2 _ = false

abbrev pub from_half2 : MemLatchCtl → Bool
from_half2 mem_latch_half2 = true
from_half2 mem_latch_half2_mar = true
from_half2 _ = false

-- `junk` is what the uninitialised `carries` holds. The new `flags` stay in a local variable.
unfoldable pub execute_half2_result_latch : ℕ → PilotExecuteState → Outcome PilotExecuteState
execute_half2_result_latch junk s = do
  ctl ← controlled s
  let r =
      alu_compute ctl (bit_and s.sys.core.wf 0xff) s.alu_input0 s.alu_input1 s.alu_output_latch junk
  ok (
      enter exec_half2_mem_prepare
        (record s { alu_output_latch = r.latch; alu_shifter_carry_bit = r.shifter_carry }))

unfoldable pub execute_half2_mem_assert : PilotExecuteState → Outcome PilotExecuteState
unfolding assert_access
execute_half2_mem_assert s = do
  ctl ← controlled s
  ok (
      if from_half2 ctl.mem_latch_ctl && not ctl.mem_access_suppress
      then go_on exec_advance_sequencer (assert_access ctl s)
      else enter exec_advance_sequencer s)

module _ (ext : ExecuteExterns) where
  -- The inner switch; its test for `MEM_READ` stands above it.
  unfoldable pub prepare_half2 : MemWriteCtl → PilotExecuteState → Outcome PilotExecuteState
  prepare_half2 mem_write_from_src1 s =
      ext.unreachable s >>= λ t. ok (record t { mem_data = u16 t.alu_input1 })
  prepare_half2 mem_write_from_dest s = ok (record s { mem_data = u16 s.alu_output_latch })
  prepare_half2 mem_write_from_mdr s = ok s
  prepare_half2 mem_read_ctl s = ok s

  unfoldable pub execute_half2_mem_prepare : PilotExecuteState → Outcome PilotExecuteState
  unfolding prepare_half2
  execute_half2_mem_prepare s = do
    ctl ← controlled s
    let s1 =
        if latches_half2 ctl.mem_latch_ctl then record s { mem_addr = s.alu_output_latch } else s
    s2 ← if from_half2 ctl.mem_latch_ctl then prepare_half2 ctl.mem_write_ctl s1 else ok s1
    ok (enter exec_half2_mem_assert s2)

  unfoldable pub pilot_execute_half2 : ℕ → PilotExecuteState → Outcome PilotExecuteState
  pilot_execute_half2 junk s0 =
      let s = if at_half2_ready s0.execution_phase then enter exec_half2_result_latch s0 else s0 in
      do
        s1 ← if at_result_latch s.execution_phase then execute_half2_result_latch junk s else ok s
        s2 ← if at_half2_prepare s1.execution_phase then execute_half2_mem_prepare s1 else ok s1
        if at_half2_assert s2.execution_phase then execute_half2_mem_assert s2 else ok s2
