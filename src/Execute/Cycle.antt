-- ===== src/Execute/Cycle.antt =====
-- pilot-cpu/cpu_execute.c: the two half cycles one after the other, for a control word that makes no
-- memory access.
pub mod Access
use hexheld_emu.Execute.{
  ExecuteExterns, PilotExecuteState, controlled, exec_advance_sequencer, exec_half1_ready,
  exec_half2_mem_assert, exec_half2_mem_prepare, exec_half2_result_latch,
}
use hexheld_emu.Execute.Alu.{AluResult, alu_compute}
use hexheld_emu.Execute.Fetch.{fetch_data}
use hexheld_emu.Execute.Half1.{enter, pilot_execute_half1}
use hexheld_emu.Execute.Half1.Operands.{between, fetching, fetching1, half1-between}
use hexheld_emu.Execute.Half2.{
  execute_half2_mem_assert, execute_half2_mem_prepare, execute_half2_result_latch,
  pilot_execute_half2,
}
use hexheld_emu.Prelude.{bit_and, false, ok, refl, ℕ, ◌>>=◌, ◌≡◌}
use hexheld_emu.Types.{ExecuteControlWord, mem_no_latch}

-- What the second half computes.
abbrev pub outcome_of : PilotExecuteState → ExecuteControlWord → ℕ → ℕ → ℕ → AluResult
outcome_of s ctl a b junk = alu_compute ctl (bit_and s.sys.core.wf 0xff) a b s.alu_output_latch junk

-- The state with that on the latch.
abbrev pub with_result : PilotExecuteState → ExecuteControlWord → ℕ → ℕ → ℕ → PilotExecuteState
with_result s ctl a b junk = record (between s a b) {
  alu_output_latch = (outcome_of s ctl a b junk).latch;
  alu_shifter_carry_bit = (outcome_of s ctl a b junk).shifter_carry;
}

-- The end of the cycle.
abbrev pub cycle_end : PilotExecuteState → ExecuteControlWord → ℕ → ℕ → ℕ → PilotExecuteState
cycle_end s ctl a b junk = enter exec_advance_sequencer (with_result s ctl a b junk)

module _ (s : PilotExecuteState) (ctl : ExecuteControlWord) (a b junk : ℕ)
    (set : controlled s ≡ ok ctl) where
  pub result-latched :
      execute_half2_result_latch junk (enter exec_half2_result_latch (between s a b))
      ≡ ok (enter exec_half2_mem_prepare (with_result s ctl a b junk))
  unfolding execute_half2_result_latch
  result-latched = rw set refl

module _ (ext : ExecuteExterns) (s : PilotExecuteState) (ctl : ExecuteControlWord) (a b : ℕ)
    (set : controlled s ≡ ok ctl) (ready : s.execution_phase ≡ exec_half1_ready)
    (none_pending : s.mem_access_waiting ≡ false) (no_access : ctl.mem_latch_ctl ≡ mem_no_latch)
    (first : fetch_data ext (fetching s) ctl.src0.location ≡ ok (fetching s, a))
    (second : fetch_data ext (fetching1 s a) ctl.src1.location ≡ ok (fetching1 s a, b))
    (junk : ℕ) where
  abbrev computed : PilotExecuteState
  computed = enter exec_half2_mem_prepare (with_result s ctl a b junk)

  prepared2 : execute_half2_mem_prepare ext computed ≡ ok (enter exec_half2_mem_assert computed)
  unfolding execute_half2_mem_prepare
  prepared2 = rw set (rw no_access refl)

  asserted2 :
      execute_half2_mem_assert (enter exec_half2_mem_assert computed)
      ≡ ok (cycle_end s ctl a b junk)
  unfolding execute_half2_mem_assert
  asserted2 = rw set (rw no_access refl)

  half2-cycle_end : pilot_execute_half2 ext junk (between s a b) ≡ ok (cycle_end s ctl a b junk)
  unfolding pilot_execute_half2
  half2-cycle_end = rw (result-latched s ctl a b junk set) (rw prepared2 asserted2)

  -- A cycle that starts ready with no access pending, whose control word makes no access and
  -- whose two sources can be read, returns: the operands are latched, the latch and the
  -- shifter's carry hold what the ALU computes of them and the low byte of WF, the phase asks
  -- for the next control word, and nothing else changes.
  pub cycle-alu_compute :
      (pilot_execute_half1 ext s >>= pilot_execute_half2 ext junk) ≡ ok (cycle_end s ctl a b junk)
  cycle-alu_compute =
      rw (half1-between ext s ctl a b set ready none_pending (rw no_access refl) first second)
        half2-cycle_end
