-- ===== src/Memory.antt =====
-- pilot-cpu/memory_bus.c: the memory controller. A read of `hram` outside its 0xc00 bytes is the
-- fault `out_of_bounds`.
pub mod Map
pub mod Requests
pub mod Protocol
use hexheld_emu.Prelude.{
  Bool, Outcome, bit_or, false, if◌then◌else◌, leb, load, ok, true, u16, ℕ, ◌&&◌, ◌+◌, ◌<<<◌, ◌>>=◌,
  ◌>>◌,
}
use hexheld_emu.System.{
  MemctlState, PilotSystem, hram_len, mctl_mem_r_busy, mctl_mem_w_busy, mctl_ready,
}

abbrev pub wram_end : ℕ
wram_end = 0x007fff

abbrev pub vram_end : ℕ
vram_end = 0x00ffff

abbrev pub cart_cs2_end : ℕ
cart_cs2_end = 0x1fffff

abbrev pub cart_rom_end : ℕ
cart_rom_end = 0xffdfff

abbrev pub tmram_end : ℕ
tmram_end = 0xffefff

abbrev pub oam_end : ℕ
oam_end = 0xfff27f

abbrev pub hcio_start : ℕ
hcio_start = 0xfff300

abbrev pub hcio_end : ℕ
hcio_end = 0xfff3ff

abbrev pub hram_end : ℕ
hram_end = 0xffffff

-- The branch that reads `hram`: a little-endian word at `addr`.
read_hram : PilotSystem → ℕ → Outcome (PilotSystem × Bool)
read_hram sys addr = do
  lo ← load hram_len sys.hram addr
  hi ← load hram_len sys.hram (addr + 1)
  ok (record sys { memctl = record sys.memctl { data_reg_in = u16 (bit_or lo (hi <<< 8)) } }, true)

unfoldable pub mem_read : PilotSystem → Outcome (PilotSystem × Bool)
unfolding read_hram
mem_read sys =
    let addr = sys.memctl.addr_reg in
    if leb addr wram_end
    then ok (sys, false)
    else if leb addr vram_end
    then ok (sys, false)
    else if leb addr cart_cs2_end
    then ok (sys, false)
    else if leb addr cart_rom_end
    then ok (sys, false)
    else if leb addr tmram_end
    then ok (sys, false)
    else if leb addr oam_end
    then ok (sys, false)
    else if leb hcio_start addr && leb addr hcio_end
    then ok (sys, false)
    else if leb addr hram_end
    then read_hram sys addr
    else ok (sys, false)

-- `state == MCTL_READY`, `state == MCTL_MEM_R_BUSY`.
abbrev pub is_ready : MemctlState → Bool
is_ready mctl_ready = true
is_ready _ = false

abbrev pub is_r_busy : MemctlState → Bool
is_r_busy mctl_mem_r_busy = true
is_r_busy _ = false

unfoldable pub pilot_mem_addr_read_assert : PilotSystem → ℕ → PilotSystem × MemctlState
pilot_mem_addr_read_assert sys addr =
    if is_ready sys.memctl.state
    then (
      record sys { memctl = record sys.memctl { addr_reg = addr; state = mctl_mem_r_busy } },
      mctl_ready,
    )
    else (sys, sys.memctl.state)

unfoldable pub pilot_mem_addr_write_assert : PilotSystem → ℕ → ℕ → PilotSystem × MemctlState
pilot_mem_addr_write_assert sys addr word =
    if is_ready sys.memctl.state
    then (
      record sys {
        memctl = record sys.memctl {
          addr_reg = addr;
          data_reg_out = word;
          state = mctl_mem_w_busy;
        };
      },
      mctl_ready,
    )
    else (sys, sys.memctl.state)

unfoldable pub pilot_mem_data_wait : PilotSystem → Bool
pilot_mem_data_wait sys = if sys.memctl.data_valid then true else false

unfoldable pub pilot_mem_get_data : PilotSystem → ℕ
pilot_mem_get_data sys = sys.memctl.data_reg_in

-- The assignments after a read that completed.
finish_read : PilotSystem × Bool → PilotSystem
finish_read (sys, done) =
    if done
    then record sys { memctl = record sys.memctl { state = mctl_ready; data_valid = true } }
    else sys

unfoldable pub pilot_memctl_tick : PilotSystem → Outcome PilotSystem
unfolding finish_read
pilot_memctl_tick sys =
    let waiting = record sys { memctl = record sys.memctl { data_valid = false } } in
    if is_r_busy sys.memctl.state
    then (mem_read waiting >>= λ result. ok (finish_read result))
    else ok waiting
