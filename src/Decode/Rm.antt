-- ===== src/Decode/Rm.antt =====
-- pilot-cpu/cpu_decode_rm.c: the decoder of RM operands. The two local pointers are data types; a
-- write through `run_mucode` before it was set is the fault `unset_pointer`.
pub mod Modes
pub mod Pointer
pub mod Operands
pub mod Destinations
pub mod Specifiers
use hexheld_emu.Decode.{DecodeExterns, PilotDecodeState, read_word, set_core}
use hexheld_emu.Prelude.{
  Bool, Outcome, bit_and, bit_or, false, fault, if◌then◌else◌, ltb, not, ok, true, u8,
  unset_pointer, ℕ, ◌&&◌, ◌+◌, ◌==◌, ◌>>=◌, ◌>>>◌, ◌>>◌, ◌||◌,
}
use hexheld_emu.Types.{
  AluSrcControl, DataSizeSpec, MucodeEntryIdx, MucodeEntrySpec, data_latch_imm_1,
  data_latch_mem_data, data_latch_rm_1, data_latch_sfi_1, data_latch_sfi_2, data_reg_l0,
  data_reg_p0, is_8_bit, mem_latch_half2_mar, mem_write_from_dest, mu_ind_imm_with_bits,
  mu_ind_pgc_with_imm_rm, mu_ind_reg, mu_ind_reg_auto, mu_ind_reg_post_auto, mu_ind_reg_with_bits,
  mu_ind_reg_with_imm, offset, size_16_bit, size_24_bit,
}

unfoldable pub rm_requires_mem_fetch : ℕ → Bool
rm_requires_mem_fetch rm =
    bit_and rm 0x21 == 0x20
    || bit_and rm 0x23 == 0x01
    || bit_and rm 0x23 == 0x02
    || (bit_and rm 0x23 == 0x21 && ltb 0x04 (bit_and rm 0x1c))

-- `src_affected`: 0, `&srcs[0]` or `&srcs[1]`.
pub data SrcPointer : Type 0 where
  no_src left_src right_src : SrcPointer

-- `run_mucode`: not set, `&run_before` or `&run_after`.
pub data MucodePointer : Type 0 where
  unset_mucode at_run_before at_run_after : MucodePointer

abbrev pub has_src : SrcPointer → Bool
has_src no_src = false
has_src _ = true

-- An assignment through `src_affected`, under `if (src_affected)`.
unfoldable pub set_src :
    SrcPointer → (AluSrcControl → AluSrcControl) → PilotDecodeState → PilotDecodeState
set_src no_src f s = s
set_src left_src f s = set_core (λ c. record c { src0 = f c.src0 }) s
set_src right_src f s = set_core (λ c. record c { src1 = f c.src1 }) s

-- An assignment through `run_mucode`.
unfoldable pub set_mucode :
    MucodePointer
    → (MucodeEntrySpec → MucodeEntrySpec)
    → PilotDecodeState
    → Outcome PilotDecodeState
set_mucode unset_mucode f s = fault unset_pointer
set_mucode at_run_before f s =
    ok (record s { work_regs = record s.work_regs { run_before = f s.work_regs.run_before } })
set_mucode at_run_after f s =
    ok (record s { work_regs = record s.work_regs { run_after = f s.work_regs.run_after } })

unfoldable pub src_affected : Bool → Bool → SrcPointer
src_affected is_dest src_is_left =
    if src_is_left then left_src else if not is_dest then right_src else no_src

-- The block under `rm_requires_mem_fetch_`, and which slot `run_mucode` is left at.
unfoldable pub set_up_fetch :
    PilotDecodeState
    → SrcPointer
    → Bool
    → Bool
    → DataSizeSpec
    → Outcome (PilotDecodeState × MucodePointer)
unfolding set_src set_mucode
set_up_fetch s src is_dest src_is_left size =
    let s1 = set_src src (λ a. record a { location = data_latch_mem_data }) s in
    let s2 =
      if is_dest && src_is_left
      then set_core
          (λ c. record c {
            dest = data_latch_mem_data;
            mem_latch_ctl = mem_latch_half2_mar;
            mem_write_ctl = mem_write_from_dest;
            mem_size = size;
          })
          s1
      else s1 in
    let run_mucode =
      if is_dest && src_is_left
      then at_run_before
      else if is_dest
      then at_run_after
      else at_run_before in
    set_mucode run_mucode (λ m. record m { is_write = is_dest }) s2 >>= λ s3. ok (s3, run_mucode)

-- `(rm >> 2) & 0x7`.
abbrev pub rm_reg : ℕ → ℕ
rm_reg rm = bit_and (rm >>> 2) 0x7

-- The entry and the register of a micro-operation.
abbrev pub set_entry :
    MucodePointer → MucodeEntryIdx → ℕ → PilotDecodeState → Outcome PilotDecodeState
set_entry p idx reg = set_mucode p (λ m. record m { entry_idx = idx; reg_select = reg })

-- The last statement: mark the micro-operation as the second operand's.
unfoldable pub mark_second : MucodePointer → PilotDecodeState → Outcome PilotDecodeState
unfolding set_mucode
mark_second run_mucode s =
    if s.rm_ops == 2
    then set_mucode run_mucode (λ m. record m { reg_select = bit_or m.reg_select 0x10 }) s
    else ok s

module _ (ext : DecodeExterns) where
  -- "Extra word needed".
  unfoldable pub rm_indexed : ℕ → MucodePointer → PilotDecodeState → Outcome PilotDecodeState
  unfolding set_mucode
  rm_indexed rm run_mucode s = do
    s1 ← read_word ext s
    if bit_and rm 0x4 == 0
        then set_entry run_mucode mu_ind_reg_with_bits 0 s1
        else (read_word ext s1 >>= λ s2. set_entry run_mucode mu_ind_imm_with_bits 0 s2)

  -- "PGC relative".
  unfoldable pub rm_pgc : ℕ → MucodePointer → PilotDecodeState → Outcome PilotDecodeState
  unfolding set_mucode
  rm_pgc rm run_mucode s = do
    s1 ← read_word ext s
    s2 ← set_entry run_mucode mu_ind_pgc_with_imm_rm 0 s1
    if bit_and rm 0x04 == 0
        then set_mucode run_mucode (λ m. record m { reg_select = bit_or m.reg_select 0x8 }) s2
        else read_word ext s2

  -- The chain of addressing modes.
  unfoldable pub rm_mode :
      ℕ → SrcPointer → MucodePointer → DataSizeSpec → PilotDecodeState → Outcome PilotDecodeState
  unfolding set_src set_mucode offset
  rm_mode rm src run_mucode size s =
      let first = s.rm_ops == 1 in
      let short = bit_and rm 0x04 == 0 in
      if has_src src && bit_and rm 0x03 == 0x03
      then ok (
          set_src src
            (λ a. record a {
              sign_extend = false;
              location = if not first then data_latch_sfi_1 else data_latch_sfi_2;
            })
            s)
      else if bit_and rm 0x23 == 0x22
      then set_entry run_mucode mu_ind_reg_auto (rm_reg rm) s
      else if bit_and rm 0x3b == 0x39
      then rm_indexed rm run_mucode s
      else if bit_and rm 0x3b == 0x31
      then rm_pgc rm run_mucode s
      else if bit_and rm 0x3b == 0x29
      then set_mucode run_mucode
          (λ m. record m {
            size = if short then size_16_bit else size_24_bit;
            reg_select = if short then 8 else 0;
          })
          s
      else if has_src src && bit_and rm 0x3b == 0x21
      then ok (
          set_src src
            (λ a. record a {
              size = if short then size_16_bit else size_24_bit;
              location = if not first then data_latch_imm_1 else data_latch_rm_1;
              sign_extend = short;
            })
            s)
      else if bit_and rm 0x23 == 0x20
      then set_entry run_mucode mu_ind_reg_post_auto (rm_reg rm) s
      else if bit_and rm 0x23 == 0x02
      then set_entry run_mucode mu_ind_reg (rm_reg rm) s
      else if bit_and rm 0x23 == 0x01
      then set_entry run_mucode mu_ind_reg_with_imm (rm_reg rm) s
      else if has_src src && bit_and rm 0x23 == 0x00
      then ok (
          set_src src
            (λ a. record a {
              location =
                  if is_8_bit size
                  then offset data_reg_l0 (rm_reg rm)
                  else offset data_reg_p0 (rm_reg rm);
            })
            s)
      else ok s

  unfoldable pub decode_rm_specifier :
      PilotDecodeState → ℕ → Bool → Bool → DataSizeSpec → Outcome PilotDecodeState
  unfolding src_affected set_src
  decode_rm_specifier s rm is_dest src_is_left size =
      let s1 = record s { rm_ops = u8 (s.rm_ops + 1) } in
      let src = src_affected is_dest src_is_left in
      let s2 = set_src src (λ a. record a { size = size }) s1 in
      do
        (s3, run_mucode) ←
            if rm_requires_mem_fetch rm
            then set_up_fetch s2 src is_dest src_is_left size
            else ok (s2, unset_mucode)
        s4 ← rm_mode rm src run_mucode size s3
        mark_second run_mucode s4
