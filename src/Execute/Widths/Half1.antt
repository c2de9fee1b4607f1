-- ===== src/Execute/Widths/Half1.antt =====
-- pilot-cpu/cpu_execute.c, `pilot_execute_half1`: the widths through the first half cycle.
use hexheld_emu.Execute.{
  ExecuteExterns, PilotExecuteState, controlled, exec_half1_mem_assert, exec_half1_mem_prepare,
  exec_half1_mem_wait, exec_half1_operand_latch, exec_half2_ready,
}
use hexheld_emu.Execute.Fetch.{fetch_data}
use hexheld_emu.Execute.Half1.{
  at_half1_assert, at_half1_prepare, at_half1_ready, at_mem_wait, at_operand_latch, enter,
  execute_half1_mem_assert, execute_half1_mem_prepare, execute_half1_mem_wait, latch_operands,
  latches_half1, pilot_execute_half1, prepare_half1, take_data, uses_mem_data,
}
use hexheld_emu.Execute.Widths.{
  OnlyReports, Sound, Sound-refl, Sound-trans, access-Sound, enter-Sound, inputs-Sound,
  memory-Sound,
}
use hexheld_emu.Execute.Widths.Asserting.{assertion-Sound}
use hexheld_emu.Execute.Widths.Fetch.{Read, fetch_depth-Read}
use hexheld_emu.Execute.Widths.Steps.{
  block-Sound, branch-Sound, choice-Sound, then-Sound, word-Sound,
}
use hexheld_emu.Memory.{pilot_mem_data_wait, pilot_mem_get_data}
use hexheld_emu.Prelude.{
  Ensures, Ensures-bind, Ensures-weaken, arith, false, if◌then◌else◌, not, ok, u16, ℕ, ◌&&◌, ◌>>=◌,
}
use hexheld_emu.Types.{
  DataBusSpecifier, ExecuteControlWord, MemWriteCtl, mem_read_ctl, mem_write_from_dest,
  mem_write_from_mdr, mem_write_from_src1,
}

take_data-Sound : (s : PilotExecuteState) → Sound s (take_data s)
unfolding pilot_mem_get_data
take_data-Sound s =
    let v = if s.mem_access_was_read then pilot_mem_get_data s.sys else s.mem_data in
    Sound-trans s (record s { mem_addr = s.mem_addr; mem_data = v }) (take_data s)
      (memory-Sound s s.mem_addr v (λ f. f.addr) λ f. ground (arith, f.word, f.machine.data_reg_in))
      (access-Sound false s.mem_access_was_read (record s { mem_addr = s.mem_addr; mem_data = v }))

mem_wait-Sound : (s : PilotExecuteState) → Ensures (Sound s) (execute_half1_mem_wait s)
unfolding execute_half1_mem_wait
mem_wait-Sound s =
    let over = enter-Sound exec_half1_operand_latch s in
    branch-Sound s.mem_access_waiting s _ _
      (branch-Sound (pilot_mem_data_wait s.sys) s _ _
        (Sound-trans s (take_data s) (enter exec_half1_operand_latch (take_data s))
          (take_data-Sound s) (enter-Sound exec_half1_operand_latch (take_data s)))
        (word-Sound s _ λ ctl. choice-Sound (uses_mem_data ctl) s _ _ (Sound-refl s) over))
      over

mem_assert-Sound : (s : PilotExecuteState) → Ensures (Sound s) (execute_half1_mem_assert s)
unfolding execute_half1_mem_assert
mem_assert-Sound s = word-Sound s _ λ ctl.
    assertion-Sound (latches_half1 ctl.mem_latch_ctl && not ctl.mem_access_suppress)
      exec_half2_ready ctl s

-- `u16 x` stored in the memory data latch.
pub store-Sound : (s : PilotExecuteState) (x : ℕ) → Sound s (record s { mem_data = u16 x })
store-Sound s x = memory-Sound s s.mem_addr (u16 x) (λ f. f.addr) λ f. omega arith

module _ (ext : ExecuteExterns) (reports : OnlyReports ext) where
  prepare_half1-Sound :
      (write : MemWriteCtl) (s : PilotExecuteState) → Ensures (Sound s) (prepare_half1 ext write s)
  unfolding prepare_half1
  prepare_half1-Sound mem_write_from_src1 s = store-Sound s s.alu_input1
  prepare_half1-Sound mem_write_from_dest s =
      rw (reports.unreachable s) (store-Sound s s.alu_output_latch)
  prepare_half1-Sound mem_write_from_mdr s = Sound-refl s
  prepare_half1-Sound mem_read_ctl s = Sound-refl s

  prepare-Sound : (s : PilotExecuteState) → Ensures (Sound s) (execute_half1_mem_prepare ext s)
  unfolding execute_half1_mem_prepare
  prepare-Sound s = word-Sound s _ λ ctl.
      then-Sound s _ _
        (block-Sound (latches_half1 ctl.mem_latch_ctl) _ s
          (prepare_half1-Sound ctl.mem_write_ctl s))
        λ t. enter-Sound exec_half1_mem_assert t

  fetch_data-Read :
      (s : PilotExecuteState) (src : DataBusSpecifier) → Ensures (Read s) (fetch_data ext s src)
  unfolding fetch_data
  fetch_data-Read s src = fetch_depth-Read ext reports 2 s src

  -- The second fetch, and the store of its value.
  second-Sound :
      (t : PilotExecuteState) (ctl : ExecuteControlWord)
      → Ensures (Sound t) (
          fetch_data ext t ctl.src1.location >>= λ r.
          ok (enter exec_half1_mem_prepare (record r.0 { alu_input1 = r.1 })))
  second-Sound t ctl =
      Ensures-bind (Read t) (Sound t) (fetch_data ext t ctl.src1.location) _
        (fetch_data-Read t ctl.src1.location)
        λ r k.
          Sound-trans t (record r.0 { alu_input1 = r.1 }) _
            (inputs-Sound t r.0 r.0.alu_input0 r.1 k.0 (λ f. (k.0.1 f).input0) k.1)
            (enter-Sound exec_half1_mem_prepare (record r.0 { alu_input1 = r.1 }))

  operands-Sound : (s : PilotExecuteState) → Ensures (Sound s) (latch_operands ext s)
  unfolding latch_operands
  operands-Sound s = word-Sound s _ λ ctl.
      Ensures-bind (Read s) (Sound s) (fetch_data ext s ctl.src0.location) _
        (fetch_data-Read s ctl.src0.location)
        λ r k.
          let t = record r.0 { alu_input0 = r.1 } in
          Ensures-bind (Sound s) (Sound s) (ok t) _
            (inputs-Sound s r.0 r.1 r.0.alu_input1 k.0 k.1 λ f. (k.0.1 f).input1)
            λ t h.
              Ensures-weaken (Sound t) (Sound s) (controlled t >>= _)
                (word-Sound t _ λ ctl'. second-Sound t ctl') λ u q. Sound-trans s t u h q

  -- The first half cycle.
  pub half1-Sound : (s : PilotExecuteState) → Ensures (Sound s) (pilot_execute_half1 ext s)
  unfolding pilot_execute_half1
  half1-Sound s =
      then-Sound s
        (ok (if at_half1_ready s.execution_phase then enter exec_half1_mem_wait s else s)) _
        (choice-Sound (at_half1_ready s.execution_phase) s _ _ (enter-Sound exec_half1_mem_wait s)
          (Sound-refl s))
        λ t.
          then-Sound t _ _ (block-Sound (at_mem_wait t.execution_phase) _ t (mem_wait-Sound t))
            λ s1.
              then-Sound s1 _ _
                (block-Sound (at_operand_latch s1.execution_phase) _ s1 (operands-Sound s1))
                λ s2.
                  then-Sound s2 _ _
                    (block-Sound (at_half1_prepare s2.execution_phase) _ s2 (prepare-Sound s2))
                    λ s3.
                      block-Sound (at_half1_assert s3.execution_phase) _ s3 (mem_assert-Sound s3)
