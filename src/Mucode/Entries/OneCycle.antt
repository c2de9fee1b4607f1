-- ===== src/Mucode/Entries/OneCycle.antt =====
-- pilot-cpu/cpu_mucode.c: the entries that take the address as it is, and the update of a register.
use hexheld_emu.Mucode.Entries.Base.{base_entry, write_ctl_of}
use hexheld_emu.Prelude.{bit_and, false, true, ℕ}
use hexheld_emu.Types.{
  DataBusSpecifier, DataSizeSpec, MucodeEntry, MucodeEntrySpec, alu_add, data_latch_imm_0,
  data_latch_imm_1, data_latch_rm_1, data_reg_l0, data_reg_p0, data_reg_w0, data_size,
  mem_latch_half1, mem_latch_half2, mem_no_latch, mu_post_autoidx, offset, size_16_bit, size_24_bit,
  size_8_bit, size_code_3,
}

unfoldable pub ind_1cyc_imm : MucodeEntry → MucodeEntrySpec → MucodeEntry
unfolding base_entry
ind_1cyc_imm junk spec =
    let prg = base_entry junk spec in
    record prg {
      operation = record prg.operation {
        src0 = record prg.operation.src0 { location = data_latch_imm_1; size = spec.size };
        mem_latch_ctl = mem_latch_half1;
        mem_write_ctl = write_ctl_of spec;
      };
    }

unfoldable pub ind_1cyc_imm_rm : MucodeEntry → MucodeEntrySpec → MucodeEntry
unfolding base_entry
ind_1cyc_imm_rm junk spec =
    let prg = base_entry junk spec in
    record prg {
      operation = record prg.operation {
        src0 = record prg.operation.src0 { location = data_latch_rm_1; size = spec.size };
        mem_latch_ctl = mem_latch_half1;
        mem_write_ctl = write_ctl_of spec;
      };
    }

unfoldable pub ind_1cyc_imm0 : MucodeEntry → MucodeEntrySpec → MucodeEntry
unfolding base_entry
ind_1cyc_imm0 junk spec =
    let prg = base_entry junk spec in
    record prg {
      operation = record prg.operation {
        src0 = record prg.operation.src0 { location = data_latch_imm_0; size = size_8_bit };
        mem_latch_ctl = mem_latch_half1;
        mem_write_ctl = write_ctl_of spec;
      };
    }

-- The `switch` on the size, which leaves the location as it was at any other value.
unfoldable pub reg_location : DataBusSpecifier → DataSizeSpec → ℕ → DataBusSpecifier
unfolding offset
reg_location unset size_8_bit reg = offset data_reg_l0 reg
reg_location unset size_16_bit reg = offset data_reg_w0 reg
reg_location unset size_24_bit reg = offset data_reg_p0 reg
reg_location unset size_code_3 reg = unset

unfoldable pub ind_1cyc_reg : MucodeEntry → MucodeEntrySpec → MucodeEntry
unfolding base_entry reg_location
ind_1cyc_reg junk spec =
    let prg = base_entry junk spec in
    record prg {
      operation = record prg.operation {
        src0 = record prg.operation.src0 {
          size = spec.size;
          location =
              reg_location prg.operation.src0.location spec.size (bit_and spec.reg_select 0x7);
        };
        mem_latch_ctl = mem_latch_half1;
        mem_write_ctl = write_ctl_of spec;
      };
    }

unfoldable pub ind_1cyc_reg_post_auto : MucodeEntry → MucodeEntrySpec → MucodeEntry
unfolding ind_1cyc_reg
ind_1cyc_reg_post_auto junk spec =
    let prg = ind_1cyc_reg junk spec in
    record prg { next = record prg.next { entry_idx = mu_post_autoidx } }

unfoldable pub ind_1cyc_reg_auto : MucodeEntry → MucodeEntrySpec → MucodeEntry
unfolding ind_1cyc_reg
ind_1cyc_reg_auto junk spec =
    let prg = ind_1cyc_reg junk spec in
    record prg {
      operation = record prg.operation {
        src1 = record prg.operation.src1 { location = data_size };
        src2_add1 = false;
        src2_negate = true;
        operation = alu_add;
        dest = prg.operation.src0.location;
        mem_latch_ctl = mem_latch_half2;
        mem_write_ctl = write_ctl_of spec;
      };
    }

unfoldable pub after_autoidx : MucodeEntry → MucodeEntrySpec → MucodeEntry
unfolding ind_1cyc_reg
after_autoidx junk spec =
    let prg = ind_1cyc_reg junk spec in
    record prg {
      operation = record prg.operation {
        src1 = record prg.operation.src1 { location = data_size; size = size_24_bit };
        src2_add1 = false;
        src2_negate = false;
        operation = alu_add;
        dest = prg.operation.src0.location;
        mem_latch_ctl = mem_no_latch;
      };
    }
