-- ===== src/Scenarios/Bus.antt =====
-- The memory controller's theorems at a state.
use hexheld_emu.Memory.{
  is_ready, mem_read, pilot_mem_addr_read_assert, pilot_mem_addr_write_assert, pilot_mem_data_wait,
  pilot_memctl_tick,
}
use hexheld_emu.Memory.Map.{mem_read-in_hram}
use hexheld_emu.Memory.Protocol.{
  BusReach, IsHeld, IsHeld-forever, and_then, no_request, read_request, tick,
}
use hexheld_emu.Memory.Requests.{
  KeptIfRefused, SameRest, read_assert-refines-request, reading, request, view,
  write_assert-refines-request, writing,
}
use hexheld_emu.Prelude.{false, ok, refl, ◌≡◌}
use hexheld_emu.Scenarios.{machine}
use hexheld_emu.System.{PilotSystem, mctl_mem_r_busy, mctl_ready}

abbrev idle_machine : PilotSystem
idle_machine = machine mctl_ready false

abbrev busy_machine : PilotSystem
busy_machine = machine mctl_mem_r_busy false

read_assert-refines-request_example :
    let (after, answer) = pilot_mem_addr_read_assert idle_machine 0x2000 in
    ((view after, is_ready answer) ≡ request (reading 0x2000) (view idle_machine))
    × SameRest idle_machine after
    × (after.memctl.data_reg_out ≡ idle_machine.memctl.data_reg_out)
    × KeptIfRefused (is_ready answer) idle_machine after
read_assert-refines-request_example = read_assert-refines-request idle_machine 0x2000

write_assert-refines-request_example :
    let (after, answer) = pilot_mem_addr_write_assert idle_machine 0x2000 0x55aa in
    ((view after, is_ready answer) ≡ request (writing 0x2000 0x55aa) (view idle_machine))
    × SameRest idle_machine after
    × KeptIfRefused (is_ready answer) idle_machine after
write_assert-refines-request_example = write_assert-refines-request idle_machine 0x2000 0x55aa

mem_read-in_hram_example : mem_read busy_machine ≡ ok (busy_machine, false)
mem_read-in_hram_example = mem_read-in_hram busy_machine

busy-IsHeld : IsHeld mctl_mem_r_busy 0x1234 busy_machine
unfolding pilot_mem_data_wait
busy-IsHeld = record { busy = refl; not_idle = refl; held = refl; silent = refl }

-- A tick, and another request.
abbrev calls : BusReach busy_machine (pilot_mem_addr_read_assert busy_machine 0x9000).0
unfolding pilot_memctl_tick mem_read
calls =
    and_then (and_then no_request (tick {s = busy_machine} {t = busy_machine} refl))
      (read_request busy_machine 0x9000)

IsHeld-forever_example :
    IsHeld mctl_mem_r_busy 0x1234 (pilot_mem_addr_read_assert busy_machine 0x9000).0
IsHeld-forever_example = IsHeld-forever busy-IsHeld calls
