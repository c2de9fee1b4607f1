-- ===== src/Execute/Half1.antt =====
-- pilot-cpu/cpu_execute.c: the first half cycle of the execute stage.
pub mod Assert
pub mod Operands
use hexheld_emu.Execute.{
  ExecuteExterns, ExecutionPhase, PilotExecuteState, controlled, exec_half1_mem_assert,
  exec_half1_mem_prepare, exec_half1_mem_wait, exec_half1_operand_latch, exec_half1_ready,
  exec_half2_ready,
}
use hexheld_emu.Execute.Fetch.{fetch_data}
use hexheld_emu.Memory.{
  is_ready, pilot_mem_addr_read_assert, pilot_mem_addr_write_assert, pilot_mem_data_wait,
  pilot_mem_get_data,
}
use hexheld_emu.Prelude.{Bool, Outcome, false, if◌then◌else◌, not, ok, true, u16, ◌&&◌, ◌>>=◌, ◌||◌}
use hexheld_emu.Types.{
  ExecuteControlWord, MemLatchCtl, MemWriteCtl, data_latch_mem_data, mem_latch_half1, mem_read_ctl,
  mem_write_from_dest, mem_write_from_mdr, mem_write_from_src1, same_bus,
}

-- `execution_phase == …`.
abbrev pub at_half1_ready : ExecutionPhase → Bool
at_half1_ready exec_half1_ready = true
at_half1_ready _ = false

abbrev pub at_mem_wait : ExecutionPhase → Bool
at_mem_wait exec_half1_mem_wait = true
at_mem_wait _ = false

abbrev pub at_operand_latch : ExecutionPhase → Bool
at_operand_latch exec_half1_operand_latch = true
at_operand_latch _ = false

abbrev pub at_half1_prepare : ExecutionPhase → Bool
at_half1_prepare exec_half1_mem_prepare = true
at_half1_prepare _ = false

abbrev pub at_half1_assert : ExecutionPhase → Bool
at_half1_assert exec_half1_mem_assert = true
at_half1_assert _ = false

-- Tests on the memory fields of the control word.
abbrev pub latches_half1 : MemLatchCtl → Bool
latches_half1 mem_latch_half1 = true
latches_half1 _ = false

abbrev pub is_mem_read : MemWriteCtl → Bool
is_mem_read mem_read_ctl = true
is_mem_read _ = false

-- A source or the destination is the memory data latch.
unfoldable pub uses_mem_data : ExecuteControlWord → Bool
unfolding same_bus
uses_mem_data ctl =
    same_bus ctl.src0.location data_latch_mem_data
    || same_bus ctl.src1.location data_latch_mem_data
    || same_bus ctl.dest data_latch_mem_data

abbrev pub enter : ExecutionPhase → PilotExecuteState → PilotExecuteState
enter phase s = record s { execution_phase = phase }

-- The access has completed.
abbrev pub take_data : PilotExecuteState → PilotExecuteState
take_data s = record s {
  mem_access_waiting = false;
  mem_data = if s.mem_access_was_read then pilot_mem_get_data s.sys else s.mem_data;
}

unfoldable pub execute_half1_mem_wait : PilotExecuteState → Outcome PilotExecuteState
unfolding pilot_mem_data_wait pilot_mem_get_data uses_mem_data
execute_half1_mem_wait s =
    if s.mem_access_waiting
    then (if pilot_mem_data_wait s.sys
        then ok (enter exec_half1_operand_latch (take_data s))
        else (controlled s >>= λ ctl.
            ok (if uses_mem_data ctl then s else enter exec_half1_operand_latch s)))
    else ok (enter exec_half1_operand_latch s)

-- The assertion of a read or a write, in either half: `true` in the second component means that
-- the function goes on, `false` that it returns at once. The answer `MCTL_READY` is 0, and the code
-- returns on 0.
unfoldable pub assert_access : ExecuteControlWord → PilotExecuteState → PilotExecuteState × Bool
unfolding pilot_mem_addr_read_assert pilot_mem_addr_write_assert
assert_access ctl s =
    if is_mem_read ctl.mem_write_ctl
    then (let (sys', answer) = pilot_mem_addr_read_assert s.sys s.mem_addr in
        if is_ready answer
        then (record s { sys = sys' }, false)
        else (record s { sys = sys'; mem_access_was_read = true; mem_access_waiting = true }, true))
    else (let (sys', answer) = pilot_mem_addr_write_assert s.sys s.mem_addr s.mem_data in
        if is_ready answer
        then (record s { sys = sys' }, false)
        else (record s { sys = sys'; mem_access_waiting = true }, true))

-- The end of both assertion functions: a return, or the next phase.
abbrev pub go_on : ExecutionPhase → PilotExecuteState × Bool → PilotExecuteState
go_on phase r = if r.1 then enter phase r.0 else r.0

unfoldable pub execute_half1_mem_assert : PilotExecuteState → Outcome PilotExecuteState
unfolding assert_access
execute_half1_mem_assert s = do
  ctl ← controlled s
  ok (
      if latches_half1 ctl.mem_latch_ctl && not ctl.mem_access_suppress
      then go_on exec_half2_ready (assert_access ctl s)
      else enter exec_half2_ready s)

module _ (ext : ExecuteExterns) where
  -- The inner switch; its test for `MEM_READ` stands above it.
  unfoldable pub prepare_half1 : MemWriteCtl → PilotExecuteState → Outcome PilotExecuteState
  prepare_half1 mem_write_from_src1 s = ok (record s { mem_data = u16 s.alu_input1 })
  prepare_half1 mem_write_from_dest s =
      ext.unreachable s >>= λ t. ok (record t { mem_data = u16 t.alu_output_latch })
  prepare_half1 mem_write_from_mdr s = ok s
  prepare_half1 mem_read_ctl s = ok s

  unfoldable pub execute_half1_mem_prepare : PilotExecuteState → Outcome PilotExecuteState
  unfolding prepare_half1
  execute_half1_mem_prepare s = do
    ctl ← controlled s
    s1 ← if latches_half1 ctl.mem_latch_ctl then prepare_half1 ctl.mem_write_ctl s else ok s
    ok (enter exec_half1_mem_assert s1)

  -- The block that latches both operands.
  unfoldable pub latch_operands : PilotExecuteState → Outcome PilotExecuteState
  latch_operands s = do
    ctl ← controlled s
    (s1, in0) ← fetch_data ext s ctl.src0.location
    ctl' ← controlled (record s1 { alu_input0 = in0 })
    (s2, in1) ← fetch_data ext (record s1 { alu_input0 = in0 }) ctl'.src1.location
    ok (enter exec_half1_mem_prepare (record s2 { alu_input1 = in1 }))

  unfoldable pub pilot_execute_half1 : PilotExecuteState → Outcome PilotExecuteState
  pilot_execute_half1 s0 =
      let s = if at_half1_ready s0.execution_phase then enter exec_half1_mem_wait s0 else s0 in
      do
        s1 ← if at_mem_wait s.execution_phase then execute_half1_mem_wait s else ok s
        s2 ← if at_operand_latch s1.execution_phase then latch_operands s1 else ok s1
        s3 ← if at_half1_prepare s2.execution_phase then execute_half1_mem_prepare s2 else ok s2
        if at_half1_assert s3.execution_phase then execute_half1_mem_assert s3 else ok s3
