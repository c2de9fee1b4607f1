-- ===== src/Memory/Map.antt =====
-- pilot-cpu/memory_bus.c, `mem_read`: the memory map, and what a read of each region does.
use hexheld_emu.Memory.{mem_read}
use hexheld_emu.Prelude.{
  Bool, arith, false, fault, if◌then◌else◌, leb, ltb, not, ok, out_of_bounds, ℕ, ◌&&◌, ◌≡◌,
}
use hexheld_emu.System.{PilotSystem}

-- The addresses above the sprite attributes that are not memory-mapped I/O.
abbrev pub in_hram : ℕ → Bool
in_hram addr =
    leb 0xfff280 addr && leb addr 0xffffff && not (leb 0xfff300 addr && ltb addr 0xfff400)

-- At every address: inside the high RAM region a read runs outside the array `hram`, because the
-- address is not reduced to an offset; at any other address it changes nothing and reports that it
-- is not complete.
pub mem_read-in_hram :
    (sys : PilotSystem)
    → mem_read sys ≡ (if in_hram sys.memctl.addr_reg then fault out_of_bounds else ok (sys, false))
unfolding mem_read
mem_read-in_hram sys = ground arith
