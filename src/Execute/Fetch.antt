-- ===== src/Execute/Fetch.antt =====
-- pilot-cpu/cpu_execute.c, `fetch_data_`: reading a source on the data bus.
pub mod Depth
use hexheld_emu.Execute.{ExecuteExterns, PilotExecuteState}
use hexheld_emu.Prelude.{
  Bool, Option, Outcome, bit_and, bit_or, fault, if◌then◌else◌, leb, load, no_return, none, not, ok,
  some, suc, zero, ℕ, ◌+◌, ◌<<<◌, ◌==◌, ◌>>=◌, ◌>>>◌, ◌>>◌, ◌||◌,
}
use hexheld_emu.Types.{
  DataBusSpecifier, DataSizeSpec, bus_code, data_latch_imm_0, data_latch_imm_1, data_latch_imm_2,
  data_latch_imm_hml, data_latch_imm_hml_rm, data_latch_mem_addr, data_latch_mem_data,
  data_latch_repi, data_latch_repr, data_latch_rm_1, data_latch_rm_2, data_latch_rm_hml,
  data_latch_sfi_1, data_latch_sfi_2, data_reg_f, data_reg_imm_0_8, data_reg_imm_1_2,
  data_reg_imm_1_8, data_reg_imm_2_8, data_reg_l0, data_reg_l1, data_reg_l2, data_reg_l3,
  data_reg_m0, data_reg_m1, data_reg_m2, data_reg_m3, data_reg_p0, data_reg_p1, data_reg_p2,
  data_reg_p3, data_reg_p4, data_reg_p5, data_reg_p6, data_reg_pgc, data_reg_rm_1_2,
  data_reg_rm_1_8, data_reg_rm_2_8, data_reg_sp, data_reg_w, data_reg_w0, data_reg_w1, data_reg_w2,
  data_reg_w3, data_reg_w4, data_reg_w5, data_reg_w6, data_reg_w7, data_reg_wf, data_size,
  data_zero, imm_words_len, is_16_bit, is_24_bit, is_8_bit, offset, same_bus, size_of_code,
}

-- `decoded_inst.imm_words[i]`.
abbrev pub imm_word : PilotExecuteState → ℕ → Outcome ℕ
imm_word s i = load imm_words_len s.decoded_inst.imm_words i

-- The size and the second source's flag of the microcode buffer, which the fetch uses.
abbrev pub buffer_size : PilotExecuteState → DataSizeSpec
buffer_size s = s.mucode_decoded_buffer.src0.size

abbrev pub set_buffer_sign : Bool → PilotExecuteState → PilotExecuteState
set_buffer_sign sign s = record s {
  mucode_decoded_buffer = record s.mucode_decoded_buffer {
    src1 = record s.mucode_decoded_buffer.src1 { sign_extend = sign };
  };
}

-- `((hi & 0xff) << 16) | lo`.
abbrev pub join_hml : ℕ → ℕ → ℕ
join_hml hi lo = bit_or (bit_and hi 0xff <<< 16) lo

abbrev pub read_hml : PilotExecuteState → ℕ → ℕ → Outcome ℕ
read_hml s hi lo = do h ← imm_word s hi; l ← imm_word s lo; ok (join_hml h l)

-- The macro `READ_IMM_LATCH_`.
abbrev pub read_imm_latch : PilotExecuteState → ℕ → DataSizeSpec → Outcome ℕ
read_imm_latch s imm size = if is_24_bit size then read_hml s imm (imm + 1) else imm_word s imm

-- The first argument of the fetch in the macro `ACCESS_REG_BITS_`. Its parameter is not in
-- parentheses, and every use of it is `r & 0x7`: since `+` binds more tightly than `&`, the mask is
-- on the sum, and the source is one of the codes 0 to 7.
abbrev pub reg_bits : ℕ → DataSizeSpec → DataBusSpecifier
reg_bits r size =
    offset data_zero
      (bit_and (bus_code (if is_8_bit size then data_reg_l0 else data_reg_p0) + r) 0x7)

-- `(w >> 8) & 0x7` and `(w >> 2) & 0x7`, where they name a register to write.
abbrev pub field_8 : ℕ → ℕ
field_8 w = bit_and (w >>> 8) 0x7

abbrev pub field_2 : ℕ → ℕ
field_2 w = bit_and (w >>> 2) 0x7

-- The case `DATA_SIZE`.
unfoldable pub step_size : PilotExecuteState → ℕ
unfolding same_bus
step_size s =
    if is_8_bit (buffer_size s)
    then (if same_bus s.mucode_decoded_buffer.src0.location data_reg_sp
          || same_bus s.mucode_decoded_buffer.src1.location data_reg_sp
        then 2
        else 1)
    else if is_16_bit (buffer_size s)
    then 2
    else 4

-- The `return` after `sized_reg`: 0, or the fetch at the location.
abbrev pub follow :
    (PilotExecuteState → DataBusSpecifier → Outcome (PilotExecuteState × ℕ))
    → PilotExecuteState × Option DataBusSpecifier
    → Outcome (PilotExecuteState × ℕ)
follow fetch (s, none) = ok (s, 0)
follow fetch (s, some src) = fetch s src

module _ (ext : ExecuteExterns) where
  -- The cases `DATA_REG_IMM_2_8` and `DATA_REG_RM_2_8`, for the word `w`, as the location to fetch;
  -- an invalid word is reported and yields none.
  unfoldable pub sized_reg :
      ℕ → PilotExecuteState → Outcome (PilotExecuteState × Option DataBusSpecifier)
  sized_reg w s =
      if leb 0xc000 w
      then (ext.invalid_opcode s.sys >>= λ sys'. ok (record s { sys = sys' }, none))
      else ok (
        set_buffer_sign (not (bit_and w 0x0800 == 0)) s,
        some (reg_bits (w >>> 8) (size_of_code (w >>> 14))),
      )

  -- The first argument bounds the depth of the calls; a call at depth 0 is taken not to return.
  unfoldable pub fetch_depth :
      ℕ → PilotExecuteState → DataBusSpecifier → Outcome (PilotExecuteState × ℕ)
  unfolding step_size sized_reg offset bus_code
  fetch_depth zero s src = fault no_return
  fetch_depth (suc depth) s data_zero = ok (s, 0)
  fetch_depth (suc depth) s data_size = ok (s, step_size s)
  fetch_depth (suc depth) s data_reg_l0 = ok (s, bit_and (s.sys.core.regs 0) 0xff)
  fetch_depth (suc depth) s data_reg_l1 = ok (s, bit_and (s.sys.core.regs 1) 0xff)
  fetch_depth (suc depth) s data_reg_l2 = ok (s, bit_and (s.sys.core.regs 2) 0xff)
  fetch_depth (suc depth) s data_reg_l3 = ok (s, bit_and (s.sys.core.regs 3) 0xff)
  fetch_depth (suc depth) s data_reg_m0 = ok (s, bit_and (s.sys.core.regs 0 >>> 8) 0xff)
  fetch_depth (suc depth) s data_reg_m1 = ok (s, bit_and (s.sys.core.regs 1 >>> 8) 0xff)
  fetch_depth (suc depth) s data_reg_m2 = ok (s, bit_and (s.sys.core.regs 2 >>> 8) 0xff)
  fetch_depth (suc depth) s data_reg_m3 = ok (s, bit_and (s.sys.core.regs 3 >>> 8) 0xff)
  fetch_depth (suc depth) s data_reg_w0 = ok (s, bit_and (s.sys.core.regs 0) 0xffff)
  fetch_depth (suc depth) s data_reg_w1 = ok (s, bit_and (s.sys.core.regs 1) 0xffff)
  fetch_depth (suc depth) s data_reg_w2 = ok (s, bit_and (s.sys.core.regs 2) 0xffff)
  fetch_depth (suc depth) s data_reg_w3 = ok (s, bit_and (s.sys.core.regs 3) 0xffff)
  fetch_depth (suc depth) s data_reg_w4 = ok (s, bit_and (s.sys.core.regs 4) 0xffff)
  fetch_depth (suc depth) s data_reg_w5 = ok (s, bit_and (s.sys.core.regs 5) 0xffff)
  fetch_depth (suc depth) s data_reg_w6 = ok (s, bit_and (s.sys.core.regs 6) 0xffff)
  fetch_depth (suc depth) s data_reg_w7 = ok (s, bit_and (s.sys.core.regs 7) 0xffff)
  fetch_depth (suc depth) s data_reg_p0 = ok (s, s.sys.core.regs 0)
  fetch_depth (suc depth) s data_reg_p1 = ok (s, s.sys.core.regs 1)
  fetch_depth (suc depth) s data_reg_p2 = ok (s, s.sys.core.regs 2)
  fetch_depth (suc depth) s data_reg_p3 = ok (s, s.sys.core.regs 3)
  fetch_depth (suc depth) s data_reg_p4 = ok (s, s.sys.core.regs 4)
  fetch_depth (suc depth) s data_reg_p5 = ok (s, s.sys.core.regs 5)
  fetch_depth (suc depth) s data_reg_p6 = ok (s, s.sys.core.regs 6)
  fetch_depth (suc depth) s data_reg_sp = ok (s, s.sys.core.regs 7)
  fetch_depth (suc depth) s data_reg_pgc = ok (s, s.sys.core.pgc)
  fetch_depth (suc depth) s data_reg_f = ok (s, bit_and s.sys.core.wf 0xff)
  fetch_depth (suc depth) s data_reg_w = ok (s, s.sys.core.wf >>> 8)
  fetch_depth (suc depth) s data_reg_wf = ok (s, s.sys.core.wf)
  fetch_depth (suc depth) s data_latch_repi = ok (s, s.sys.core.repi)
  fetch_depth (suc depth) s data_latch_repr = ok (s, s.sys.core.repr)
  fetch_depth (suc depth) s data_latch_mem_addr = ok (s, s.mem_addr)
  fetch_depth (suc depth) s data_latch_mem_data = ok (s, s.mem_data)
  fetch_depth (suc depth) s data_latch_imm_0 = read_imm_latch s 0 (buffer_size s) >>= λ v. ok (s, v)
  fetch_depth (suc depth) s data_latch_imm_1 = read_imm_latch s 1 (buffer_size s) >>= λ v. ok (s, v)
  fetch_depth (suc depth) s data_latch_imm_2 = read_imm_latch s 2 (buffer_size s) >>= λ v. ok (s, v)
  fetch_depth (suc depth) s data_latch_imm_hml = read_hml s 0 1 >>= λ v. ok (s, v)
  fetch_depth (suc depth) s data_latch_imm_hml_rm = read_hml s 2 1 >>= λ v. ok (s, v)
  fetch_depth (suc depth) s data_latch_sfi_1 =
      imm_word s 0 >>= λ w. ok (s, bit_and (w >>> 2) 0x000f)
  fetch_depth (suc depth) s data_latch_sfi_2 =
      imm_word s 0 >>= λ w. ok (s, bit_and (w >>> 8) 0x000f)
  fetch_depth (suc depth) s data_latch_rm_1 =
      read_imm_latch s s.decoded_inst.rm2_offset (buffer_size s) >>= λ v. ok (s, v)
  fetch_depth (suc depth) s data_latch_rm_2 =
      read_imm_latch s (s.decoded_inst.rm2_offset + 1) (buffer_size s) >>= λ v. ok (s, v)
  fetch_depth (suc depth) s data_latch_rm_hml =
      read_hml s (s.decoded_inst.rm2_offset + 1) s.decoded_inst.rm2_offset >>= λ v. ok (s, v)
  fetch_depth (suc depth) s data_reg_imm_0_8 =
      imm_word s 0 >>= λ w. fetch_depth depth s (reg_bits (w >>> 8) (buffer_size s))
  fetch_depth (suc depth) s data_reg_imm_1_8 =
      imm_word s 1 >>= λ w. fetch_depth depth s (reg_bits (w >>> 8) (buffer_size s))
  fetch_depth (suc depth) s data_reg_imm_1_2 =
      imm_word s 1 >>= λ w. fetch_depth depth s (reg_bits (w >>> 2) (buffer_size s))
  fetch_depth (suc depth) s data_reg_imm_2_8 =
      imm_word s 2 >>= λ w. sized_reg w s >>= λ r. follow (fetch_depth depth) r
  fetch_depth (suc depth) s data_reg_rm_1_8 = imm_word s s.decoded_inst.rm2_offset >>= λ w.
      fetch_depth depth s (reg_bits (w >>> 8) (buffer_size s))
  fetch_depth (suc depth) s data_reg_rm_1_2 = imm_word s s.decoded_inst.rm2_offset >>= λ w.
      fetch_depth depth s (reg_bits (w >>> 2) (buffer_size s))
  fetch_depth (suc depth) s data_reg_rm_2_8 = imm_word s (s.decoded_inst.rm2_offset + 1) >>= λ w.
      sized_reg w s >>= λ r. follow (fetch_depth depth) r

  -- The inner call is at one of the codes 0 to 7, and makes no further one.
  unfoldable pub fetch_data : PilotExecuteState → DataBusSpecifier → Outcome (PilotExecuteState × ℕ)
  unfolding fetch_depth
  fetch_data s src = fetch_depth 2 s src
