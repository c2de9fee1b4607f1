-- ===== src/Execute/Widths/Fetch.antt =====
-- pilot-cpu/cpu_execute.c, `fetch_data_`: what is read from the data bus fits 32 bits.
use hexheld_emu.Bits.{bit_and-mask, bit_or-fields}
use hexheld_emu.Execute.{ExecuteExterns, PilotExecuteState}
use hexheld_emu.Execute.Fetch.{
  buffer_size, fetch_depth, follow, imm_word, join_hml, read_hml, read_imm_latch, reg_bits,
  set_buffer_sign, sized_reg, step_size,
}
use hexheld_emu.Execute.Widths.{Fits, OnlyReports, Sound, Sound-refl, Sound-trans, buffer-Sound}
use hexheld_emu.Prelude.{
  Bool, Bool-cases, Ensures, Ensures-bind, Ensures-weaken, Outcome, arith, bit_and, fault, inl, inr,
  leb, ltb, not, ok, suc, zero, ℕ, ◌+◌, ◌<◌, ◌==◌, ◌>>=◌, ◌>>>◌, ◌^◌,
}
use hexheld_emu.Types.{
  DataBusSpecifier, DataSizeSpec, data_latch_imm_0, data_latch_imm_1, data_latch_imm_2,
  data_latch_imm_hml, data_latch_imm_hml_rm, data_latch_mem_addr, data_latch_mem_data,
  data_latch_repi, data_latch_repr, data_latch_rm_1, data_latch_rm_2, data_latch_rm_hml,
  data_latch_sfi_1, data_latch_sfi_2, data_reg_f, data_reg_imm_0_8, data_reg_imm_1_2,
  data_reg_imm_1_8, data_reg_imm_2_8, data_reg_l0, data_reg_l1, data_reg_l2, data_reg_l3,
  data_reg_m0, data_reg_m1, data_reg_m2, data_reg_m3, data_reg_p0, data_reg_p1, data_reg_p2,
  data_reg_p3, data_reg_p4, data_reg_p5, data_reg_p6, data_reg_pgc, data_reg_rm_1_2,
  data_reg_rm_1_8, data_reg_rm_2_8, data_reg_sp, data_reg_w, data_reg_w0, data_reg_w1, data_reg_w2,
  data_reg_w3, data_reg_w4, data_reg_w5, data_reg_w6, data_reg_w7, data_reg_wf, data_size,
  data_zero, imm_words_len, is_24_bit, size_of_code,
}

-- A value that was read: the state is sound, and the value fits.
abbrev pub Read : PilotExecuteState → PilotExecuteState × ℕ → Type 0
Read s r = Sound s r.0 × (Fits s → r.1 < 2 ^ 32)

byte-lt : (x : ℕ) → bit_and x 0xff < 2 ^ 32
byte-lt x = omega (arith, bit_and-mask 8 x)

word-lt : (x : ℕ) → bit_and x 0xffff < 2 ^ 32
word-lt x = omega (arith, bit_and-mask 16 x)

digit-lt : (x : ℕ) → bit_and x 0x000f < 2 ^ 32
digit-lt x = omega (arith, bit_and-mask 4 x)

hml-lt : (hi lo : ℕ) → lo < 2 ^ 16 → join_hml hi lo < 2 ^ 32
hml-lt hi lo h = omega (arith, bit_and-mask 8 hi, bit_or-fields 16 (bit_and hi 0xff) lo h)

plain : (s : PilotExecuteState) (v : ℕ) → (Fits s → v < 2 ^ 32) → Read s (s, v)
plain s v h = (Sound-refl s, h)

-- A word of the instruction, and two of them, or whichever the size asks for.
at_word :
    (s : PilotExecuteState) (i : ℕ) (P : ℕ → Type 0)
    → (i < imm_words_len → P (s.decoded_inst.imm_words i))
    → Ensures P (imm_word s i)
at_word s i P h = elim (Bool-cases (ltb i imm_words_len)) [
  | inl e ↦ rw e (h (ground arith))
  | inr e ↦ rw e tt
]

value-Read :
    (s : PilotExecuteState) (m : Outcome ℕ)
    → Ensures (λ v. Fits s → v < 2 ^ 32) m
    → Ensures (Read s) (m >>= λ v. ok (s, v))
value-Read s m h =
    Ensures-bind (λ v. Fits s → v < 2 ^ 32) (Read s) m (λ v. ok (s, v)) h λ v k. plain s v k

hml-small : (s : PilotExecuteState) (i j : ℕ) → Ensures (λ v. Fits s → v < 2 ^ 32) (read_hml s i j)
hml-small s i j =
    Ensures-bind (λ v. Unit {0}) (λ v. Fits s → v < 2 ^ 32) (imm_word s i) _
      (at_word s i (λ v. Unit {0}) λ _. tt)
      λ hi u.
        Ensures-bind (λ v. Fits s → v < 2 ^ 16) (λ v. Fits s → v < 2 ^ 32) (imm_word s j) _
          (at_word s j (λ v. Fits s → v < 2 ^ 16) λ small f. f.inst.words j small)
          λ lo k f. hml-lt hi lo (k f)

word-small : (s : PilotExecuteState) (i : ℕ) → Ensures (λ v. Fits s → v < 2 ^ 32) (imm_word s i)
word-small s i =
    at_word s i (λ v. Fits s → v < 2 ^ 32) λ small f. omega (arith, f.inst.words i small)

latch-small :
    (s : PilotExecuteState) (i : ℕ) (size : DataSizeSpec)
    → Ensures (λ v. Fits s → v < 2 ^ 32) (read_imm_latch s i size)
latch-small s i size = elim (Bool-cases (is_24_bit size)) [
  | inl e ↦ rw e (hml-small s i (i + 1))
  | inr e ↦ rw e (word-small s i)
]

step_size-lt : (s : PilotExecuteState) → step_size s < 2 ^ 32
unfolding step_size
step_size-lt s = ground arith

set_buffer_sign-Sound : (b : Bool) (s : PilotExecuteState) → Sound s (set_buffer_sign b s)
set_buffer_sign-Sound b s = buffer-Sound (set_buffer_sign b s).mucode_decoded_buffer s λ f. f.buffer

digit_of :
    (s : PilotExecuteState) (m : Outcome ℕ) (f : ℕ → ℕ)
    → Ensures (Read s) (m >>= λ w. ok (s, bit_and (f w) 0x000f))
digit_of s (ok w) f = plain s _ λ g. digit-lt (f w)
digit_of s (fault e) f = tt

-- The inner fetch of the cases that name a register by a field of a word.
inner-Read :
    (s : PilotExecuteState)
    (fetch : PilotExecuteState → DataBusSpecifier → Outcome (PilotExecuteState × ℕ)) (m : Outcome ℕ)
    (f : ℕ → DataBusSpecifier)
    → ((src : DataBusSpecifier) → Ensures (Read s) (fetch s src))
    → Ensures (Read s) (m >>= λ w. fetch s (f w))
inner-Read s fetch (ok w) f h = h (f w)
inner-Read s fetch (fault e) f h = tt

module _ (ext : ExecuteExterns) (reports : OnlyReports ext) where
  sized-Read :
      (s : PilotExecuteState)
      (fetch : PilotExecuteState → DataBusSpecifier → Outcome (PilotExecuteState × ℕ)) (w : ℕ)
      → ((t : PilotExecuteState) (src : DataBusSpecifier) → Ensures (Read t) (fetch t src))
      → Ensures (Read s) (sized_reg ext w s >>= λ r. follow fetch r)
  unfolding sized_reg
  sized-Read s fetch w h =
      let t = set_buffer_sign (not (bit_and w 0x0800 == 0)) s in
      let change = set_buffer_sign-Sound (not (bit_and w 0x0800 == 0)) s in
      let src = reg_bits (w >>> 8) (size_of_code (w >>> 14)) in
      elim (Bool-cases (leb 0xc000 w)) [
        | inl e ↦ rw e (rw (reports.invalid_opcode s.sys) (plain s 0 λ f. omega arith))
        | inr e ↦ rw e (
            Ensures-weaken (Read t) (Read s) (fetch t src) (h t src)
              λ r k. (Sound-trans s t r.0 change k.0, λ f. k.1 (change.1 f)))
      ]

  sized_word-Read :
      (s : PilotExecuteState)
      (fetch : PilotExecuteState → DataBusSpecifier → Outcome (PilotExecuteState × ℕ))
      (m : Outcome ℕ)
      → ((t : PilotExecuteState) (src : DataBusSpecifier) → Ensures (Read t) (fetch t src))
      → Ensures (Read s) (m >>= λ w. sized_reg ext w s >>= λ r. follow fetch r)
  sized_word-Read s fetch (ok w) h = sized-Read s fetch w h
  sized_word-Read s fetch (fault e) h = tt

  pub fetch_depth-Read :
      (d : ℕ) (s : PilotExecuteState) (src : DataBusSpecifier)
      → Ensures (Read s) (fetch_depth ext d s src)
  unfolding fetch_depth
  fetch_depth-Read zero s src = tt
  fetch_depth-Read (suc d) s data_zero = plain s 0 λ f. omega arith
  fetch_depth-Read (suc d) s data_size = plain s _ λ f. step_size-lt s
  fetch_depth-Read (suc d) s data_reg_l0 = plain s _ λ f. byte-lt _
  fetch_depth-Read (suc d) s data_reg_l1 = plain s _ λ f. byte-lt _
  fetch_depth-Read (suc d) s data_reg_l2 = plain s _ λ f. byte-lt _
  fetch_depth-Read (suc d) s data_reg_l3 = plain s _ λ f. byte-lt _
  fetch_depth-Read (suc d) s data_reg_m0 = plain s _ λ f. byte-lt _
  fetch_depth-Read (suc d) s data_reg_m1 = plain s _ λ f. byte-lt _
  fetch_depth-Read (suc d) s data_reg_m2 = plain s _ λ f. byte-lt _
  fetch_depth-Read (suc d) s data_reg_m3 = plain s _ λ f. byte-lt _
  fetch_depth-Read (suc d) s data_reg_w0 = plain s _ λ f. word-lt _
  fetch_depth-Read (suc d) s data_reg_w1 = plain s _ λ f. word-lt _
  fetch_depth-Read (suc d) s data_reg_w2 = plain s _ λ f. word-lt _
  fetch_depth-Read (suc d) s data_reg_w3 = plain s _ λ f. word-lt _
  fetch_depth-Read (suc d) s data_reg_w4 = plain s _ λ f. word-lt _
  fetch_depth-Read (suc d) s data_reg_w5 = plain s _ λ f. word-lt _
  fetch_depth-Read (suc d) s data_reg_w6 = plain s _ λ f. word-lt _
  fetch_depth-Read (suc d) s data_reg_w7 = plain s _ λ f. word-lt _
  fetch_depth-Read (suc d) s data_reg_p0 = plain s _ λ f. f.machine.regs 0 (omega arith)
  fetch_depth-Read (suc d) s data_reg_p1 = plain s _ λ f. f.machine.regs 1 (omega arith)
  fetch_depth-Read (suc d) s data_reg_p2 = plain s _ λ f. f.machine.regs 2 (omega arith)
  fetch_depth-Read (suc d) s data_reg_p3 = plain s _ λ f. f.machine.regs 3 (omega arith)
  fetch_depth-Read (suc d) s data_reg_p4 = plain s _ λ f. f.machine.regs 4 (omega arith)
  fetch_depth-Read (suc d) s data_reg_p5 = plain s _ λ f. f.machine.regs 5 (omega arith)
  fetch_depth-Read (suc d) s data_reg_p6 = plain s _ λ f. f.machine.regs 6 (omega arith)
  fetch_depth-Read (suc d) s data_reg_sp = plain s _ λ f. f.machine.regs 7 (omega arith)
  fetch_depth-Read (suc d) s data_reg_pgc = plain s _ λ f. f.machine.pgc
  fetch_depth-Read (suc d) s data_reg_f = plain s _ λ f. byte-lt _
  fetch_depth-Read (suc d) s data_reg_w = plain s _ λ f. omega (arith, f.machine.wf)
  fetch_depth-Read (suc d) s data_reg_wf = plain s _ λ f. omega (arith, f.machine.wf)
  fetch_depth-Read (suc d) s data_latch_repi = plain s _ λ f. omega (arith, f.machine.repi)
  fetch_depth-Read (suc d) s data_latch_repr = plain s _ λ f. omega (arith, f.machine.repr)
  fetch_depth-Read (suc d) s data_latch_mem_data = plain s _ λ f. omega (arith, f.word)
  fetch_depth-Read (suc d) s data_latch_mem_addr = plain s _ λ f. f.addr
  fetch_depth-Read (suc d) s data_latch_imm_0 =
      value-Read s (read_imm_latch s 0 (buffer_size s)) (latch-small s 0 (buffer_size s))
  fetch_depth-Read (suc d) s data_latch_imm_1 =
      value-Read s (read_imm_latch s 1 (buffer_size s)) (latch-small s 1 (buffer_size s))
  fetch_depth-Read (suc d) s data_latch_imm_2 =
      value-Read s (read_imm_latch s 2 (buffer_size s)) (latch-small s 2 (buffer_size s))
  fetch_depth-Read (suc d) s data_latch_imm_hml = value-Read s (read_hml s 0 1) (hml-small s 0 1)
  fetch_depth-Read (suc d) s data_latch_imm_hml_rm = value-Read s (read_hml s 2 1) (hml-small s 2 1)
  fetch_depth-Read (suc d) s data_latch_sfi_1 = digit_of s (imm_word s 0) (λ w. w >>> 2)
  fetch_depth-Read (suc d) s data_latch_sfi_2 = digit_of s (imm_word s 0) (λ w. w >>> 8)
  fetch_depth-Read (suc d) s data_latch_rm_1 =
      value-Read s (read_imm_latch s s.decoded_inst.rm2_offset (buffer_size s))
        (latch-small s s.decoded_inst.rm2_offset (buffer_size s))
  fetch_depth-Read (suc d) s data_latch_rm_2 =
      value-Read s (read_imm_latch s (s.decoded_inst.rm2_offset + 1) (buffer_size s))
        (latch-small s (s.decoded_inst.rm2_offset + 1) (buffer_size s))
  fetch_depth-Read (suc d) s data_latch_rm_hml =
      value-Read s (read_hml s (s.decoded_inst.rm2_offset + 1) s.decoded_inst.rm2_offset)
        (hml-small s (s.decoded_inst.rm2_offset + 1) s.decoded_inst.rm2_offset)
  fetch_depth-Read (suc d) s data_reg_imm_0_8 =
      inner-Read s (fetch_depth ext d) (imm_word s 0) (λ w. reg_bits (w >>> 8) (buffer_size s))
        λ src. fetch_depth-Read d s src
  fetch_depth-Read (suc d) s data_reg_imm_1_8 =
      inner-Read s (fetch_depth ext d) (imm_word s 1) (λ w. reg_bits (w >>> 8) (buffer_size s))
        λ src. fetch_depth-Read d s src
  fetch_depth-Read (suc d) s data_reg_imm_1_2 =
      inner-Read s (fetch_depth ext d) (imm_word s 1) (λ w. reg_bits (w >>> 2) (buffer_size s))
        λ src. fetch_depth-Read d s src
  fetch_depth-Read (suc d) s data_reg_rm_1_8 =
      inner-Read s (fetch_depth ext d) (imm_word s s.decoded_inst.rm2_offset)
        (λ w. reg_bits (w >>> 8) (buffer_size s)) λ src. fetch_depth-Read d s src
  fetch_depth-Read (suc d) s data_reg_rm_1_2 =
      inner-Read s (fetch_depth ext d) (imm_word s s.decoded_inst.rm2_offset)
        (λ w. reg_bits (w >>> 2) (buffer_size s)) λ src. fetch_depth-Read d s src
  fetch_depth-Read (suc d) s data_reg_imm_2_8 =
      sized_word-Read s (fetch_depth ext d) (imm_word s 2) λ t src. fetch_depth-Read d t src
  fetch_depth-Read (suc d) s data_reg_rm_2_8 =
      sized_word-Read s (fetch_depth ext d) (imm_word s (s.decoded_inst.rm2_offset + 1))
        λ t src. fetch_depth-Read d t src
