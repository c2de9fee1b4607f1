-- ===== src/Execute/Half1/Operands.antt =====
-- pilot-cpu/cpu_execute.c: the first half cycle from its start to its end, for a control word that
-- makes no access in it.
use hexheld_emu.Execute.{
  ExecuteExterns, PilotExecuteState, controlled, exec_half1_mem_assert, exec_half1_mem_prepare,
  exec_half1_mem_wait, exec_half1_operand_latch, exec_half1_ready, exec_half2_ready,
}
use hexheld_emu.Execute.Fetch.{fetch_data}
use hexheld_emu.Execute.Half1.{
  enter, execute_half1_mem_assert, execute_half1_mem_prepare, execute_half1_mem_wait,
  latch_operands, latches_half1, pilot_execute_half1,
}
use hexheld_emu.Prelude.{false, ok, refl, ℕ, ◌≡◌}
use hexheld_emu.Types.{ExecuteControlWord}

-- The state in which the operands are fetched, and after the first of them is.
abbrev pub fetching : PilotExecuteState → PilotExecuteState
fetching s = enter exec_half1_operand_latch s

abbrev pub fetching1 : PilotExecuteState → ℕ → PilotExecuteState
fetching1 s a = record (fetching s) { alu_input0 = a }

-- The state between the halves.
abbrev pub between : PilotExecuteState → ℕ → ℕ → PilotExecuteState
between s a b = record s { alu_input0 = a; alu_input1 = b; execution_phase = exec_half2_ready }

module _ (ext : ExecuteExterns) (s : PilotExecuteState) (ctl : ExecuteControlWord) (a b : ℕ)
    (set : controlled s ≡ ok ctl) (ready : s.execution_phase ≡ exec_half1_ready)
    (none_pending : s.mem_access_waiting ≡ false)
    (no_latch : latches_half1 ctl.mem_latch_ctl ≡ false)
    (first : fetch_data ext (fetching s) ctl.src0.location ≡ ok (fetching s, a))
    (second : fetch_data ext (fetching1 s a) ctl.src1.location ≡ ok (fetching1 s a, b)) where
  abbrev latched : PilotExecuteState
  latched = enter exec_half1_mem_prepare (record (fetching1 s a) { alu_input1 = b })

  operands-latched : latch_operands ext (fetching s) ≡ ok latched
  unfolding latch_operands
  operands-latched = rw set (rw first (rw set (rw second refl)))

  wait-over : execute_half1_mem_wait (enter exec_half1_mem_wait s) ≡ ok (fetching s)
  unfolding execute_half1_mem_wait
  wait-over = rw none_pending refl

  prepared : execute_half1_mem_prepare ext latched ≡ ok (enter exec_half1_mem_assert latched)
  unfolding execute_half1_mem_prepare
  prepared = rw set (rw no_latch refl)

  asserted : execute_half1_mem_assert (enter exec_half1_mem_assert latched) ≡ ok (between s a b)
  unfolding execute_half1_mem_assert
  asserted = rw set (rw no_latch refl)

  pub half1-between : pilot_execute_half1 ext s ≡ ok (between s a b)
  unfolding pilot_execute_half1
  half1-between = rw ready (rw wait-over (rw operands-latched (rw prepared asserted)))
