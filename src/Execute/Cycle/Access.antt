-- ===== src/Execute/Cycle/Access.antt =====
-- pilot-cpu/cpu_execute.c and memory_bus.c: a cycle whose control word reads or writes memory in its
-- second half.
use hexheld_emu.Execute.{
  ExecuteExterns, PilotExecuteState, controlled, exec_half1_ready, exec_half2_mem_assert,
  exec_half2_mem_prepare,
}
use hexheld_emu.Execute.Cycle.{result-latched, with_result}
use hexheld_emu.Execute.Fetch.{fetch_data}
use hexheld_emu.Execute.Half1.{enter, pilot_execute_half1}
use hexheld_emu.Execute.Half1.Operands.{between, fetching, fetching1, half1-between}
use hexheld_emu.Execute.Half2.{
  execute_half2_mem_assert, execute_half2_mem_prepare, from_half2, latches_half2,
  pilot_execute_half2,
}
use hexheld_emu.Execute.Half2.Assertions.{
  address_kept, addressed, awaiting, from_source, not_in_half1, prepare_half2-data_to_write, sent,
  two_assertions,
}
use hexheld_emu.Prelude.{ap, false, if◌then◌else◌, not, ok, refl, true, ℕ, ◌&&◌, ◌>>=◌, ◌∙◌, ◌≡◌}
use hexheld_emu.Types.{ExecuteControlWord}

-- The end of the cycle.
abbrev pub access_end : PilotExecuteState → ExecuteControlWord → ℕ → ℕ → ℕ → PilotExecuteState
access_end s ctl a b junk = awaiting ctl (sent ctl (addressed ctl (with_result s ctl a b junk)))

module _ (ext : ExecuteExterns) (s : PilotExecuteState) (ctl : ExecuteControlWord) (a b : ℕ)
    (set : controlled s ≡ ok ctl) (ready : s.execution_phase ≡ exec_half1_ready)
    (none_pending : s.mem_access_waiting ≡ false) (at_half2 : from_half2 ctl.mem_latch_ctl ≡ true)
    (not_suppressed : ctl.mem_access_suppress ≡ false)
    (reachable : from_source ctl.mem_write_ctl ≡ false)
    (first : fetch_data ext (fetching s) ctl.src0.location ≡ ok (fetching s, a))
    (second : fetch_data ext (fetching1 s a) ctl.src1.location ≡ ok (fetching1 s a, b))
    (junk : ℕ) where
  abbrev prepared : PilotExecuteState
  prepared = enter exec_half2_mem_assert (addressed ctl (with_result s ctl a b junk))

  addressed-prepared :
      execute_half2_mem_prepare ext (enter exec_half2_mem_prepare (with_result s ctl a b junk))
      ≡ ok prepared
  unfolding execute_half2_mem_prepare
  addressed-prepared =
      let w = enter exec_half2_mem_prepare (with_result s ctl a b junk) in
      rw set (
        rw at_half2 (
          rw (address_kept (latches_half2 ctl.mem_latch_ctl) w) (
            rw
              (prepare_half2-data_to_write ext ctl.mem_write_ctl
                (record w {
                  mem_addr =
                      if latches_half2 ctl.mem_latch_ctl then w.alu_output_latch else w.mem_addr;
                })
                reachable)
              refl)))

  asserts : (from_half2 ctl.mem_latch_ctl && not ctl.mem_access_suppress) ≡ true
  asserts = rw at_half2 (rw not_suppressed refl)

  half2-prepared : pilot_execute_half2 ext junk (between s a b) ≡ execute_half2_mem_assert prepared
  unfolding pilot_execute_half2
  half2-prepared = rw (result-latched s ctl a b junk set) (rw addressed-prepared refl)

  -- A cycle that starts ready with no access pending, whose two sources can be read, and whose
  -- control word makes an access in its second half that is not suppressed and does not write the
  -- second source: with two calls of the second half it returns. The address is the result, or the
  -- old one where the control word keeps it, and the data to write are the result or the old ones.
  -- An idle controller then holds the request. A busy one is unchanged, and the request is lost.
  -- In both cases the stage waits for the end of the access, and the phase asks for the next
  -- control word.
  pub cycle-accesses :
      (junk' : ℕ)
      → (pilot_execute_half1 ext s
          >>= pilot_execute_half2 ext junk
          >>= pilot_execute_half2 ext junk')
        ≡ ok (access_end s ctl a b junk)
  cycle-accesses junk' =
      rw
        (half1-between ext s ctl a b set ready none_pending
          (not_in_half1 ctl.mem_latch_ctl at_half2) first second)
        (ap (λ r. r >>= pilot_execute_half2 ext junk') half2-prepared
          ∙ two_assertions ext ctl (addressed ctl (with_result s ctl a b junk)) set asserts junk')
