-- ===== src/Execute/Half1/Assert.antt =====
-- pilot-cpu/cpu_execute.c: the assertion of an access, as both half cycles make it.
use hexheld_emu.Execute.{PilotExecuteState, controlled, exec_half2_ready}
use hexheld_emu.Execute.Half1.{assert_access, execute_half1_mem_assert, is_mem_read}
use hexheld_emu.Memory.{is_ready, pilot_mem_addr_read_assert, pilot_mem_addr_write_assert}
use hexheld_emu.Memory.Requests.{reading, view, writing}
use hexheld_emu.Prelude.{Returns, arith, false, if◌then◌else◌, ok, true, ◌>>=◌, ◌≡◌}
use hexheld_emu.Types.{ExecuteControlWord}

-- A controller that is not idle refuses: the state of the machine is unchanged, and the function goes
-- on as if its request had been taken, and waits for the data.
pub assert_access-busy :
    (ctl : ExecuteControlWord) (s : PilotExecuteState)
    → is_ready s.sys.memctl.state ≡ false
    → ((assert_access ctl s).1 ≡ true)
      × ((assert_access ctl s).0.sys ≡ s.sys)
      × ((assert_access ctl s).0.mem_access_waiting ≡ true)
unfolding assert_access pilot_mem_addr_read_assert pilot_mem_addr_write_assert
assert_access-busy ctl s h = ground arith

-- An idle controller takes the request, and holds the address: the function then stops as if it had been
-- refused, and does not wait for the data.
pub assert_access-idle :
    (ctl : ExecuteControlWord) (s : PilotExecuteState)
    → is_ready s.sys.memctl.state ≡ true
    → ((assert_access ctl s).1 ≡ false)
      × (view (assert_access ctl s).0.sys ≡ (
          if is_mem_read ctl.mem_write_ctl
          then reading s.mem_addr
          else writing s.mem_addr s.mem_data))
      × ((assert_access ctl s).0.mem_access_waiting ≡ s.mem_access_waiting)
      × ((assert_access ctl s).0.execution_phase ≡ s.execution_phase)
unfolding assert_access pilot_mem_addr_read_assert pilot_mem_addr_write_assert
assert_access-idle ctl s h = ground arith

-- Where the control word is set, whatever the state of the controller: the second of two
-- assertions in a row ends the first half.
pub mem_assert-twice :
    (ctl : ExecuteControlWord) (s : PilotExecuteState)
    → controlled s ≡ ok ctl
    → Returns
        (λ t. t.execution_phase ≡ exec_half2_ready)
        (execute_half1_mem_assert s >>= execute_half1_mem_assert)
unfolding execute_half1_mem_assert assert_access pilot_mem_addr_read_assert
    pilot_mem_addr_write_assert
mem_assert-twice ctl s h = ground arith
