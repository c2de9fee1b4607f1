-- ===== src/Execute/Half2/Assertions.antt =====
-- pilot-cpu/cpu_execute.c and memory_bus.c: how the second half prepares an access and asserts it, in
-- two calls.
use hexheld_emu.Execute.{
  ExecuteExterns, PilotExecuteState, controlled, exec_advance_sequencer, exec_half2_mem_assert,
}
use hexheld_emu.Execute.Half1.{assert_access, enter, go_on, is_mem_read, latches_half1}
use hexheld_emu.Execute.Half2.{
  execute_half2_mem_assert, from_half2, latches_half2, pilot_execute_half2, prepare_half2,
}
use hexheld_emu.Memory.{is_ready, pilot_mem_addr_read_assert, pilot_mem_addr_write_assert}
use hexheld_emu.Prelude.{
  Bool, Bool-cases, ap, arith, false, if◌then◌else◌, inl, inr, not, ok, refl, true, u16, ℕ, ◌&&◌,
  ◌>>=◌, ◌∙◌, ◌≡◌,
}
use hexheld_emu.System.{mctl_mem_r_busy, mctl_mem_w_busy}
use hexheld_emu.Types.{
  ExecuteControlWord, MemLatchCtl, MemWriteCtl, mem_latch_half1, mem_latch_half2,
  mem_latch_half2_mar, mem_no_latch, mem_read_ctl, mem_write_from_dest, mem_write_from_mdr,
  mem_write_from_src1,
}

-- The data to write: the result on the latch where the control word says so, else what was there.
abbrev pub data_to_write : MemWriteCtl → ℕ → ℕ → ℕ
data_to_write mem_write_from_dest latch mdr = u16 latch
data_to_write _ latch mdr = mdr

-- `execute_unreachable_` is called.
abbrev pub from_source : MemWriteCtl → Bool
from_source mem_write_from_src1 = true
from_source _ = false

-- What the second half prepares: the result is the address unless the control word keeps the old one.
abbrev pub addressed : ExecuteControlWord → PilotExecuteState → PilotExecuteState
addressed ctl s = record s {
  mem_addr = if latches_half2 ctl.mem_latch_ctl then s.alu_output_latch else s.mem_addr;
  mem_data = data_to_write ctl.mem_write_ctl s.alu_output_latch s.mem_data;
}

-- The request is with the memory controller.
abbrev pub requested : ExecuteControlWord → PilotExecuteState → PilotExecuteState
requested ctl s = record s {
  sys = record s.sys {
    memctl = record s.sys.memctl {
      addr_reg = s.mem_addr;
      data_reg_out =
          if is_mem_read ctl.mem_write_ctl then s.sys.memctl.data_reg_out else s.mem_data;
      state = if is_mem_read ctl.mem_write_ctl then mctl_mem_r_busy else mctl_mem_w_busy;
    };
  };
}

-- The stage waits for the end of the access, and the phase asks for the next control word.
abbrev pub awaiting : ExecuteControlWord → PilotExecuteState → PilotExecuteState
awaiting ctl s = record s {
  mem_access_waiting = true;
  mem_access_was_read = if is_mem_read ctl.mem_write_ctl then true else s.mem_access_was_read;
  execution_phase = exec_advance_sequencer;
}

-- Only an idle controller gets it.
abbrev pub sent : ExecuteControlWord → PilotExecuteState → PilotExecuteState
sent ctl s = if is_ready s.sys.memctl.state then requested ctl s else s

pub address_kept :
    (latch : Bool) (s : PilotExecuteState)
    → (if latch then record s { mem_addr = s.alu_output_latch } else s)
      ≡ record s { mem_addr = if latch then s.alu_output_latch else s.mem_addr }
address_kept true s = refl
address_kept false s = refl

pub prepare_half2-data_to_write :
    (ext : ExecuteExterns) (m : MemWriteCtl) (s : PilotExecuteState)
    → from_source m ≡ false
    → prepare_half2 ext m s
      ≡ ok (record s { mem_data = data_to_write m s.alu_output_latch s.mem_data })
unfolding prepare_half2
prepare_half2-data_to_write ext mem_write_from_src1 s h = absurd (ground (arith, h))
prepare_half2-data_to_write ext mem_write_from_dest s h = refl
prepare_half2-data_to_write ext mem_write_from_mdr s h = refl
prepare_half2-data_to_write ext mem_read_ctl s h = refl

assert_access-requested :
    (ctl : ExecuteControlWord) (s : PilotExecuteState)
    → is_ready s.sys.memctl.state ≡ true
    → assert_access ctl s ≡ (requested ctl s, false)
unfolding assert_access pilot_mem_addr_read_assert pilot_mem_addr_write_assert
assert_access-requested ctl s free = elim (Bool-cases (is_mem_read ctl.mem_write_ctl)) [
  | inl h ↦ rw h (rw free refl)
  | inr h ↦ rw h (rw free refl)
]

assert_access-awaiting :
    (ctl : ExecuteControlWord) (s : PilotExecuteState)
    → is_ready s.sys.memctl.state ≡ false
    → go_on exec_advance_sequencer (assert_access ctl s) ≡ awaiting ctl s
unfolding assert_access pilot_mem_addr_read_assert pilot_mem_addr_write_assert
assert_access-awaiting ctl s busy = elim (Bool-cases (is_mem_read ctl.mem_write_ctl)) [
  | inl h ↦ rw h (rw busy (rw busy refl))
  | inr h ↦ rw h (rw busy (rw busy refl))
]

half2_asserts :
    (ctl : ExecuteControlWord) (s : PilotExecuteState)
    → controlled s ≡ ok ctl
    → (from_half2 ctl.mem_latch_ctl && not ctl.mem_access_suppress) ≡ true
    → execute_half2_mem_assert s ≡ ok (go_on exec_advance_sequencer (assert_access ctl s))
unfolding execute_half2_mem_assert assert_access
half2_asserts ctl s set asserts = rw set (rw asserts refl)

busy_after : (b : Bool) → is_ready (if b then mctl_mem_r_busy else mctl_mem_w_busy) ≡ false
busy_after true = refl
busy_after false = refl

pub not_in_half1 : (m : MemLatchCtl) → from_half2 m ≡ true → latches_half1 m ≡ false
not_in_half1 mem_latch_half1 h = absurd (ground (arith, h))
not_in_half1 mem_no_latch h = refl
not_in_half1 mem_latch_half2 h = refl
not_in_half1 mem_latch_half2_mar h = refl

module _ (ext : ExecuteExterns) (ctl : ExecuteControlWord) (s : PilotExecuteState)
    (set : controlled s ≡ ok ctl)
    (asserts : (from_half2 ctl.mem_latch_ctl && not ctl.mem_access_suppress) ≡ true)
    (junk : ℕ) where
  abbrev before : PilotExecuteState
  before = enter exec_half2_mem_assert s

  abbrev taken : PilotExecuteState
  taken = requested ctl before

  taken_ends : pilot_execute_half2 ext junk taken ≡ ok (awaiting ctl (requested ctl s))
  unfolding pilot_execute_half2
  taken_ends =
      half2_asserts ctl taken set asserts
      ∙ ap ok (assert_access-awaiting ctl taken (busy_after (is_mem_read ctl.mem_write_ctl)))

  idle_controller :
      is_ready s.sys.memctl.state ≡ true
      → (execute_half2_mem_assert before >>= pilot_execute_half2 ext junk)
        ≡ ok (awaiting ctl (requested ctl s))
  idle_controller free =
      ap (λ r. r >>= pilot_execute_half2 ext junk)
        (half2_asserts ctl before set asserts
          ∙ ap (λ r. ok (go_on exec_advance_sequencer r)) (assert_access-requested ctl before free))
      ∙ taken_ends

  busy_controller :
      is_ready s.sys.memctl.state ≡ false
      → (execute_half2_mem_assert before >>= pilot_execute_half2 ext junk) ≡ ok (awaiting ctl s)
  unfolding pilot_execute_half2
  busy_controller busy =
      ap (λ r. r >>= pilot_execute_half2 ext junk)
        (half2_asserts ctl before set asserts ∙ ap ok (assert_access-awaiting ctl before busy))

  pub two_assertions :
      (execute_half2_mem_assert before >>= pilot_execute_half2 ext junk)
      ≡ ok (awaiting ctl (sent ctl s))
  two_assertions = elim (Bool-cases (is_ready s.sys.memctl.state)) [
    | inl h ↦ rw h (idle_controller h)
    | inr h ↦ rw h (busy_controller h)
  ]
