-- ===== src/Types/Bus.antt =====
-- pilot-cpu/types.h: the operand sizes and the sources and destinations on the internal data bus.
-- An enumerator keeps its name; `DATA_REG__F` and `DATA_REG__W` are `data_reg_f` and `data_reg_w`.
use hexheld_emu.Prelude.{Bool, false, suc, true, zero, ℕ, ◌==◌}

-- `size_code_3` is the value 3, which no enumerator has: two opcode bits are cast to this type.
pub data DataSizeSpec : Type 0 where
  size_8_bit size_16_bit size_24_bit size_code_3 : DataSizeSpec

-- The cast of a number of two bits.
unfoldable pub size_of_code : ℕ → DataSizeSpec
size_of_code zero = size_8_bit
size_of_code (suc zero) = size_16_bit
size_of_code (suc (suc zero)) = size_24_bit
size_of_code (suc (suc (suc n))) = size_code_3

-- The C comparisons of a size with an enumerator.
abbrev pub is_8_bit : DataSizeSpec → Bool
is_8_bit size_8_bit = true
is_8_bit _ = false

abbrev pub is_16_bit : DataSizeSpec → Bool
is_16_bit size_16_bit = true
is_16_bit _ = false

abbrev pub is_24_bit : DataSizeSpec → Bool
is_24_bit size_24_bit = true
is_24_bit _ = false

pub data DataBusSpecifier : Type 0 where
  data_zero data_size data_reg_l0 data_reg_l1 data_reg_l2 data_reg_l3 : DataBusSpecifier
  data_reg_m0 data_reg_m1 data_reg_m2 data_reg_m3 data_reg_f data_reg_w : DataBusSpecifier
  data_reg_w0 data_reg_w1 data_reg_w2 data_reg_w3 data_reg_w4 data_reg_w5 : DataBusSpecifier
  data_reg_w6 data_reg_w7 data_reg_wf data_reg_p0 data_reg_p1 data_reg_p2 : DataBusSpecifier
  data_reg_p3 data_reg_p4 data_reg_p5 data_reg_p6 data_reg_sp data_reg_pgc : DataBusSpecifier
  data_latch_repi data_latch_repr data_latch_mem_addr data_latch_mem_data : DataBusSpecifier
  data_latch_imm_0 data_latch_imm_1 data_latch_imm_2 data_latch_imm_hml : DataBusSpecifier
  data_latch_imm_hml_rm data_latch_sfi_1 data_latch_sfi_2 data_latch_rm_1 : DataBusSpecifier
  data_latch_rm_2 data_latch_rm_hml data_reg_imm_0_8 data_reg_imm_1_8 : DataBusSpecifier
  data_reg_imm_1_2 data_reg_imm_2_8 data_reg_rm_1_8 data_reg_rm_1_2 : DataBusSpecifier
  data_reg_rm_2_8 : DataBusSpecifier

-- The value of an enumerator.
unfoldable pub bus_code : DataBusSpecifier → ℕ
bus_code data_zero = 0
bus_code data_size = 1
bus_code data_reg_l0 = 2
bus_code data_reg_l1 = 3
bus_code data_reg_l2 = 4
bus_code data_reg_l3 = 5
bus_code data_reg_m0 = 6
bus_code data_reg_m1 = 7
bus_code data_reg_m2 = 8
bus_code data_reg_m3 = 9
bus_code data_reg_f = 10
bus_code data_reg_w = 11
bus_code data_reg_w0 = 12
bus_code data_reg_w1 = 13
bus_code data_reg_w2 = 14
bus_code data_reg_w3 = 15
bus_code data_reg_w4 = 16
bus_code data_reg_w5 = 17
bus_code data_reg_w6 = 18
bus_code data_reg_w7 = 19
bus_code data_reg_wf = 20
bus_code data_reg_p0 = 21
bus_code data_reg_p1 = 22
bus_code data_reg_p2 = 23
bus_code data_reg_p3 = 24
bus_code data_reg_p4 = 25
bus_code data_reg_p5 = 26
bus_code data_reg_p6 = 27
bus_code data_reg_sp = 28
bus_code data_reg_pgc = 29
bus_code data_latch_repi = 30
bus_code data_latch_repr = 31
bus_code data_latch_mem_addr = 32
bus_code data_latch_mem_data = 33
bus_code data_latch_imm_0 = 34
bus_code data_latch_imm_1 = 35
bus_code data_latch_imm_2 = 36
bus_code data_latch_imm_hml = 37
bus_code data_latch_imm_hml_rm = 38
bus_code data_latch_sfi_1 = 39
bus_code data_latch_sfi_2 = 40
bus_code data_latch_rm_1 = 41
bus_code data_latch_rm_2 = 42
bus_code data_latch_rm_hml = 43
bus_code data_reg_imm_0_8 = 44
bus_code data_reg_imm_1_8 = 45
bus_code data_reg_imm_1_2 = 46
bus_code data_reg_imm_2_8 = 47
bus_code data_reg_rm_1_8 = 48
bus_code data_reg_rm_1_2 = 49
bus_code data_reg_rm_2_8 = 50

-- The enumerator whose value is one more; the last one is kept.
unfoldable pub next_bus : DataBusSpecifier → DataBusSpecifier
next_bus data_zero = data_size
next_bus data_size = data_reg_l0
next_bus data_reg_l0 = data_reg_l1
next_bus data_reg_l1 = data_reg_l2
next_bus data_reg_l2 = data_reg_l3
next_bus data_reg_l3 = data_reg_m0
next_bus data_reg_m0 = data_reg_m1
next_bus data_reg_m1 = data_reg_m2
next_bus data_reg_m2 = data_reg_m3
next_bus data_reg_m3 = data_reg_f
next_bus data_reg_f = data_reg_w
next_bus data_reg_w = data_reg_w0
next_bus data_reg_w0 = data_reg_w1
next_bus data_reg_w1 = data_reg_w2
next_bus data_reg_w2 = data_reg_w3
next_bus data_reg_w3 = data_reg_w4
next_bus data_reg_w4 = data_reg_w5
next_bus data_reg_w5 = data_reg_w6
next_bus data_reg_w6 = data_reg_w7
next_bus data_reg_w7 = data_reg_wf
next_bus data_reg_wf = data_reg_p0
next_bus data_reg_p0 = data_reg_p1
next_bus data_reg_p1 = data_reg_p2
next_bus data_reg_p2 = data_reg_p3
next_bus data_reg_p3 = data_reg_p4
next_bus data_reg_p4 = data_reg_p5
next_bus data_reg_p5 = data_reg_p6
next_bus data_reg_p6 = data_reg_sp
next_bus data_reg_sp = data_reg_pgc
next_bus data_reg_pgc = data_latch_repi
next_bus data_latch_repi = data_latch_repr
next_bus data_latch_repr = data_latch_mem_addr
next_bus data_latch_mem_addr = data_latch_mem_data
next_bus data_latch_mem_data = data_latch_imm_0
next_bus data_latch_imm_0 = data_latch_imm_1
next_bus data_latch_imm_1 = data_latch_imm_2
next_bus data_latch_imm_2 = data_latch_imm_hml
next_bus data_latch_imm_hml = data_latch_imm_hml_rm
next_bus data_latch_imm_hml_rm = data_latch_sfi_1
next_bus data_latch_sfi_1 = data_latch_sfi_2
next_bus data_latch_sfi_2 = data_latch_rm_1
next_bus data_latch_rm_1 = data_latch_rm_2
next_bus data_latch_rm_2 = data_latch_rm_hml
next_bus data_latch_rm_hml = data_reg_imm_0_8
next_bus data_reg_imm_0_8 = data_reg_imm_1_8
next_bus data_reg_imm_1_8 = data_reg_imm_1_2
next_bus data_reg_imm_1_2 = data_reg_imm_2_8
next_bus data_reg_imm_2_8 = data_reg_rm_1_8
next_bus data_reg_rm_1_8 = data_reg_rm_1_2
next_bus data_reg_rm_1_2 = data_reg_rm_2_8
next_bus data_reg_rm_2_8 = data_reg_rm_2_8

-- `DATA_REG_L0 + reg` and the like.
unfoldable pub offset : DataBusSpecifier → ℕ → DataBusSpecifier
unfolding next_bus
offset base zero = base
offset base (suc reg) = next_bus (offset base reg)

-- `a == b` on enumerators.
unfoldable pub same_bus : DataBusSpecifier → DataBusSpecifier → Bool
unfolding bus_code
same_bus a b = bus_code a == bus_code b
