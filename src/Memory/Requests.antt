-- ===== src/Memory/Requests.antt =====
-- pilot-cpu/memory_bus.c: what the two request functions promise, as a port that holds at most one
-- request.
use hexheld_emu.Memory.{is_ready, pilot_mem_addr_read_assert, pilot_mem_addr_write_assert}
use hexheld_emu.Prelude.{Bool, arith, false, if◌then◌else◌, true, ℕ, ◌≡◌}
use hexheld_emu.System.{
  MemctlState, PilotSystem, mctl_data_latched, mctl_mem_r_busy, mctl_mem_w_busy, mctl_ready,
}

-- `latched` is for the state that no function enters.
pub data Port : Type 0 where
  idle latched : Port
  reading : ℕ → Port
  writing : ℕ → ℕ → Port

abbrev view_state : MemctlState → ℕ → ℕ → Port
view_state mctl_ready addr word = idle
view_state mctl_mem_r_busy addr word = reading addr
view_state mctl_mem_w_busy addr word = writing addr word
view_state mctl_data_latched addr word = latched

abbrev pub view : PilotSystem → Port
view sys = view_state sys.memctl.state sys.memctl.addr_reg sys.memctl.data_reg_out

-- A request is taken exactly when the port is idle.
abbrev pub request : Port → Port → Port × Bool
request wanted idle = (wanted, true)
request wanted held = (held, false)

-- What neither request function writes.
pub record SameRest (s t : PilotSystem) : Type 0 where
  pub core : t.core ≡ s.core
  pub interconnects : t.interconnects ≡ s.interconnects
  pub hram : t.hram ≡ s.hram
  pub data_valid : t.memctl.data_valid ≡ s.memctl.data_valid
  pub data_reg_in : t.memctl.data_reg_in ≡ s.memctl.data_reg_in
  pub wait_cycles_left : t.memctl.wait_cycles_left ≡ s.memctl.wait_cycles_left

-- A request that is refused leaves the whole machine as it is.
abbrev pub KeptIfRefused : Bool → PilotSystem → PilotSystem → Type 0
KeptIfRefused taken s t = (if taken then s else t) ≡ s

-- The read request implements the port: it is taken, with the answer `MCTL_READY`, exactly when the
-- controller is idle, and then holds the address; otherwise the port keeps what it holds, and the
-- answer is not `MCTL_READY`. A request that is refused leaves the machine as it is, and one that
-- is taken writes nothing but the state and the address.
pub read_assert-refines-request :
    (sys : PilotSystem) (addr : ℕ)
    → let (after, answer) = pilot_mem_addr_read_assert sys addr in
      ((view after, is_ready answer) ≡ request (reading addr) (view sys))
      × SameRest sys after
      × (after.memctl.data_reg_out ≡ sys.memctl.data_reg_out)
      × KeptIfRefused (is_ready answer) sys after
unfolding pilot_mem_addr_read_assert
read_assert-refines-request sys addr = ground arith

-- The write request implements the port in the same way, and holds the address and the word. A
-- request that is refused leaves the machine as it is, and one that is taken writes nothing but the
-- state, the address and the word.
pub write_assert-refines-request :
    (sys : PilotSystem) (addr word : ℕ)
    → let (after, answer) = pilot_mem_addr_write_assert sys addr word in
      ((view after, is_ready answer) ≡ request (writing addr word) (view sys))
      × SameRest sys after
      × KeptIfRefused (is_ready answer) sys after
unfolding pilot_mem_addr_write_assert
write_assert-refines-request sys addr word = ground arith
