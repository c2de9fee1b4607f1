-- ===== src/Mucode/Entries/TwoCycle.antt =====
-- pilot-cpu/cpu_mucode.c: the entries that add up the address.
use hexheld_emu.Mucode.Entries.Base.{base_entry, extends_sign, first_operand}
use hexheld_emu.Mucode.Entries.OneCycle.{ind_1cyc_reg}
use hexheld_emu.Prelude.{false, if◌then◌else◌, true}
use hexheld_emu.Types.{
  MucodeEntry, MucodeEntrySpec, alu_add, data_latch_imm_0, data_latch_imm_1, data_latch_imm_hml,
  data_latch_imm_hml_rm, data_latch_rm_1, data_latch_rm_hml, data_reg_imm_1_2, data_reg_imm_1_8,
  data_reg_imm_2_8, data_reg_pgc, data_reg_rm_1_2, data_reg_rm_1_8, data_reg_rm_2_8, data_zero,
  is_16_bit, mem_latch_half2, size_16_bit, size_24_bit, size_8_bit,
}

unfoldable pub ind_2cyc_withimm : MucodeEntry → MucodeEntrySpec → MucodeEntry
unfolding ind_1cyc_reg
ind_2cyc_withimm junk spec =
    let prg = ind_1cyc_reg junk spec in
    record prg {
      operation = record prg.operation {
        src1 = record prg.operation.src1 {
          location = if first_operand spec then data_latch_imm_1 else data_latch_rm_1;
          size = size_16_bit;
          sign_extend = true;
        };
        src2_add1 = false;
        src2_negate = false;
        operation = alu_add;
        dest = data_zero;
        mem_latch_ctl = mem_latch_half2;
      };
    }

unfoldable pub ind_2cyc_imm_withbits : MucodeEntry → MucodeEntrySpec → MucodeEntry
unfolding base_entry
ind_2cyc_imm_withbits junk spec =
    let prg = base_entry junk spec in
    record prg {
      operation = record prg.operation {
        src0 = record prg.operation.src0 {
          location = if first_operand spec then data_latch_imm_hml_rm else data_latch_rm_hml;
        };
        src1 = record prg.operation.src1 {
          location = if first_operand spec then data_reg_imm_2_8 else data_reg_rm_2_8;
          sign_extend = extends_sign spec;
        };
        src2_add1 = false;
        src2_negate = false;
        operation = alu_add;
        dest = data_zero;
        mem_latch_ctl = mem_latch_half2;
      };
    }

unfoldable pub ind_2cyc_reg_withbits : MucodeEntry → MucodeEntrySpec → MucodeEntry
unfolding base_entry
ind_2cyc_reg_withbits junk spec =
    let prg = base_entry junk spec in
    record prg {
      operation = record prg.operation {
        src0 = record prg.operation.src0 {
          location = if first_operand spec then data_reg_imm_1_2 else data_reg_rm_1_2;
        };
        src1 = record prg.operation.src1 {
          location = if first_operand spec then data_reg_imm_1_8 else data_reg_rm_1_8;
          sign_extend = extends_sign spec;
        };
        src2_add1 = false;
        src2_negate = false;
        operation = alu_add;
        dest = data_zero;
        mem_latch_ctl = mem_latch_half2;
      };
    }

unfoldable pub ind_2cyc_pgc_withimm : MucodeEntry → MucodeEntrySpec → MucodeEntry
unfolding base_entry
ind_2cyc_pgc_withimm junk spec =
    let prg = base_entry junk spec in
    record prg {
      operation = record prg.operation {
        src0 = record prg.operation.src0 { location = data_reg_pgc };
        src1 = record prg.operation.src1 {
          location = data_latch_imm_0;
          size = size_8_bit;
          sign_extend = true;
        };
        src2_add1 = false;
        src2_negate = false;
        operation = alu_add;
        dest = data_zero;
        mem_latch_ctl = mem_latch_half2;
      };
    }

unfoldable pub ind_2cyc_pgc_withimm_rm : MucodeEntry → MucodeEntrySpec → MucodeEntry
unfolding base_entry
ind_2cyc_pgc_withimm_rm junk spec =
    let prg = base_entry junk spec in
    record prg {
      operation = record prg.operation {
        src0 = record prg.operation.src0 { location = data_reg_pgc };
        src1 = record prg.operation.src1 {
          location = if first_operand spec then data_latch_imm_1 else data_latch_rm_1;
          size = spec.size;
          sign_extend = is_16_bit spec.size;
        };
        src2_add1 = false;
        src2_negate = false;
        operation = alu_add;
        dest = data_zero;
        mem_latch_ctl = mem_latch_half2;
      };
    }

unfoldable pub ind_2cyc_pgc_withhml : MucodeEntry → MucodeEntrySpec → MucodeEntry
unfolding base_entry
ind_2cyc_pgc_withhml junk spec =
    let prg = base_entry junk spec in
    record prg {
      operation = record prg.operation {
        src0 = record prg.operation.src0 { location = data_reg_pgc };
        src1 = record prg.operation.src1 {
          location = data_latch_imm_hml;
          size = size_24_bit;
          sign_extend = false;
        };
        src2_add1 = false;
        src2_negate = false;
        operation = alu_add;
        dest = data_zero;
        mem_latch_ctl = mem_latch_half2;
      };
    }

unfoldable pub ind_2cyc_pgc_withhml_rm : MucodeEntry → MucodeEntrySpec → MucodeEntry
unfolding base_entry
ind_2cyc_pgc_withhml_rm junk spec =
    let prg = base_entry junk spec in
    record prg {
      operation = record prg.operation {
        src0 = record prg.operation.src0 { location = data_reg_pgc };
        src1 = record prg.operation.src1 {
          location = if first_operand spec then data_latch_imm_hml_rm else data_latch_rm_hml;
          size = size_24_bit;
          sign_extend = false;
        };
        src2_add1 = false;
        src2_negate = false;
        operation = alu_add;
        dest = data_zero;
        mem_latch_ctl = mem_latch_half2;
      };
    }
