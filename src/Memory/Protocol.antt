-- ===== src/Memory/Protocol.antt =====
-- pilot-cpu/memory_bus.c: sequences of requests and ticks, in any order.
use hexheld_emu.Memory.{
  is_ready, pilot_mem_addr_read_assert, pilot_mem_addr_write_assert, pilot_mem_data_wait,
  pilot_memctl_tick,
}
use hexheld_emu.Memory.Map.{mem_read-in_hram}
use hexheld_emu.Prelude.{arith, false, ok, ℕ, ◌≡◌}
use hexheld_emu.System.{MemctlState, PilotSystem}

-- One call into the controller.
pub data BusStep : PilotSystem → PilotSystem → Type 0 where
  read_request : (s : PilotSystem) (addr : ℕ) → BusStep s (pilot_mem_addr_read_assert s addr).0
  write_request :
      (s : PilotSystem) (addr word : ℕ) → BusStep s (pilot_mem_addr_write_assert s addr word).0
  tick : {s t : PilotSystem} → pilot_memctl_tick s ≡ ok t → BusStep s t

pub data BusReach (s : PilotSystem) : PilotSystem → Type 0 where
  no_request : BusReach s s
  and_then : {t u : PilotSystem} → BusReach s t → BusStep t u → BusReach s u

-- A request is held at `addr`, and no data are announced.
pub record IsHeld (state : MemctlState) (addr : ℕ) (s : PilotSystem) : Type 0 where
  pub busy : s.memctl.state ≡ state
  pub not_idle : is_ready state ≡ false
  pub held : s.memctl.addr_reg ≡ addr
  pub silent : pilot_mem_data_wait s ≡ false

-- A tick that returns lowers `data_valid` and changes nothing else.
pub memctl_tick_lem :
    (s t : PilotSystem)
    → pilot_memctl_tick s ≡ ok t
    → t ≡ record s { memctl = record s.memctl { data_valid = false } }
unfolding pilot_memctl_tick
memctl_tick_lem s t h =
    ground (arith, mem_read-in_hram (record s { memctl = record s.memctl { data_valid = false } }))

tick-IsHeld :
    {state : MemctlState} {addr : ℕ} (s t : PilotSystem)
    → pilot_memctl_tick s ≡ ok t
    → IsHeld state addr s
    → IsHeld state addr t
unfolding pilot_mem_data_wait
tick-IsHeld s t h inv = ground (arith, memctl_tick_lem s t h)

pub BusStep-IsHeld :
    {state : MemctlState} {addr : ℕ} {s t : PilotSystem}
    → BusStep s t
    → IsHeld state addr s
    → IsHeld state addr t
unfolding pilot_mem_addr_read_assert pilot_mem_addr_write_assert pilot_mem_data_wait
BusStep-IsHeld (read_request s addr) inv = ground arith
BusStep-IsHeld (write_request s addr word) inv = ground arith
BusStep-IsHeld (tick {s} {t} h) inv = tick-IsHeld s t h inv

-- Once a read or a write has been requested and no data are announced, whatever calls follow: the
-- controller never becomes idle again, keeps that address, and never announces data.
pub IsHeld-forever :
    {state : MemctlState} {addr : ℕ} {s t : PilotSystem}
    → IsHeld state addr s
    → BusReach s t
    → IsHeld state addr t
IsHeld-forever inv no_request = inv
IsHeld-forever inv (and_then r st) = BusStep-IsHeld st (IsHeld-forever inv r)
