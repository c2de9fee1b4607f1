-- ===== src/Mucode/Entries/Base.antt =====
-- pilot-cpu/cpu_mucode.c: what every entry sets first, and the tests on its call.
use hexheld_emu.Prelude.{Bool, bit_and, false, if◌then◌else◌, not, ◌==◌}
use hexheld_emu.Types.{
  MemWriteCtl, MucodeEntry, MucodeEntrySpec, alu_off, data_zero, mem_no_latch, mem_read_ctl,
  mem_write_from_mdr, mu_none, shifter_none, size_24_bit,
}

-- `!(spec.is_write) ? MEM_READ : MEM_WRITE_FROM_MDR`.
abbrev pub write_ctl_of : MucodeEntrySpec → MemWriteCtl
write_ctl_of spec = if not spec.is_write then mem_read_ctl else mem_write_from_mdr

-- `!(spec.reg_select & 0x10)`: the entry serves the first RM operand.
abbrev pub first_operand : MucodeEntrySpec → Bool
first_operand spec = bit_and spec.reg_select 0x10 == 0

-- `spec.reg_select & 0x8`, as a truth value.
abbrev pub extends_sign : MucodeEntrySpec → Bool
extends_sign spec = not (bit_and spec.reg_select 0x8 == 0)

unfoldable pub base_entry : MucodeEntry → MucodeEntrySpec → MucodeEntry
base_entry junk spec = record junk {
  next = record {
    entry_idx = mu_none;
    reg_select = spec.reg_select;
    size = spec.size;
    is_write = spec.is_write;
  };
  operation = record junk.operation {
    src0 = record junk.operation.src0 { size = size_24_bit; sign_extend = false };
    src1 = record junk.operation.src1 { size = spec.size; sign_extend = false };
    operation = alu_off;
    shifter_mode = shifter_none;
    dest = data_zero;
    mem_latch_ctl = mem_no_latch;
    mem_size = spec.size;
    mem_access_suppress = false;
  };
}
