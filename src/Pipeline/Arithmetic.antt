-- ===== src/Pipeline/Arithmetic.antt =====
-- pilot-cpu/cpu_decode.c and cpu_execute.c: an arithmetic instruction on two 16-bit registers, from its
-- opcode word to the result latch.
use hexheld_emu.Bits.{and_law, bit_and-bit, bit_and-mask, op-lt, or_law, xor_law}
use hexheld_emu.Decode.{DecodeExterns, PilotDecodeState}
use hexheld_emu.Decode.Inst.{decode_inst, operate}
use hexheld_emu.Decode.Inst.Arithmetic.{
  Mnemonic, add, adx, and_op, cp, mnemonic_of, or_op, prepared, sbx, sub, xor_op,
}
use hexheld_emu.Decode.Inst.Direct.{decode_inst-direct, direct_of, direct_word, with_operands}
use hexheld_emu.Execute.{
  ExecuteExterns, PilotExecuteState, at_core_op, exec_advance_sequencer, exec_half1_operand_latch,
  exec_half1_ready,
}
use hexheld_emu.Execute.Alu.{alu_compute, has_bit}
use hexheld_emu.Execute.Alu.Logic.{IsPlain, alu_compute-on_bits}
use hexheld_emu.Execute.Alu.Sums.{alu_compute-sum_16}
use hexheld_emu.Execute.Cycle.{cycle-alu_compute}
use hexheld_emu.Execute.Fetch.{buffer_size, fetch_data, fetch_depth, imm_word, reg_bits, step_size}
use hexheld_emu.Execute.Half1.{enter, pilot_execute_half1}
use hexheld_emu.Execute.Half2.{pilot_execute_half2}
use hexheld_emu.Prelude.{
  Bool-cases, Outcome, Returns, ap, arith, below_8, bit, bit_and, bit_or, bit_xor, false,
  if◌then◌else◌, inl, inr, ltb, ok, refl, suc, zero, ℕ, ◌%◌, ◌+◌, ◌-◌, ◌/◌, ◌<◌, ◌>>=◌, ◌>>>◌, ◌^◌,
  ◌∙◌, ◌≡◌, ◌⊎◌,
}
use hexheld_emu.System.{f_carry}
use hexheld_emu.Types.{
  AluOperation, DataSizeSpec, ExecuteControlWord, alu_and, alu_or, alu_xor, bus_code,
  data_reg_imm_0_8, data_reg_l0, data_reg_p0, data_zero, is_8_bit, mem_no_latch, offset,
}

-- What an instruction computes of the two operands and the carry, modulo 2 ^ 16.
abbrev pub result_of : Mnemonic → ℕ → ℕ → ℕ → ℕ
result_of add x y carry = (x + y) % 2 ^ 16
result_of adx x y carry = (x + y + carry) % 2 ^ 16
result_of sub x y carry = (x + (2 ^ 16 - y % 2 ^ 16)) % 2 ^ 16
result_of sbx x y carry = (x + (2 ^ 16 - (y + carry) % 2 ^ 16)) % 2 ^ 16
result_of and_op x y carry = bit_and (x % 2 ^ 16) (y % 2 ^ 16)
result_of xor_op x y carry = bit_xor (x % 2 ^ 16) (y % 2 ^ 16)
result_of or_op x y carry = bit_or (x % 2 ^ 16) (y % 2 ^ 16)
result_of cp x y carry = (x + (2 ^ 16 - y % 2 ^ 16)) % 2 ^ 16

-- The sequencer has been given what was decoded, and has chosen its operation.
abbrev pub given : PilotExecuteState → PilotDecodeState → PilotExecuteState
given x d = record x { decoded_inst = d.work_regs; control = at_core_op }

-- The operation on the latch.
abbrev core_of : Mnemonic → ℕ → PilotDecodeState → ExecuteControlWord
core_of m b s = (direct_of m b s).work_regs.core_op

carry_of : (wf : ℕ) → bit (has_bit (bit_and wf 0xff) f_carry) ≡ wf / 2 ^ 3 % 2
carry_of wf = ground (arith, bit_and-mask 8 wf, bit_and-bit 3 (wf % 2 ^ 8))

IsPlain-core :
    (op : AluOperation) (mask b : ℕ) (s : PilotDecodeState)
    → (op ≡ alu_and) ⊎ ((op ≡ alu_or) ⊎ (op ≡ alu_xor))
    → IsPlain (with_operands b (operate op false false mask (prepared s))).work_regs.core_op
IsPlain-core op mask b s h = record {
  logic = h;
  no_shift = refl;
  size0 = refl;
  size1 = refl;
  sign0 = refl;
  sign1 = refl;
  no_increment = refl;
  no_carry = refl;
  no_negate = refl;
}

module _ (b : ℕ) (s : PilotDecodeState) (wf x y latch junk : ℕ) where
  abbrev flags : ℕ
  flags = bit_and wf 0xff

  latch_of :
      (m : Mnemonic)
      → (alu_compute (core_of m b s) flags x y latch junk).latch % 2 ^ 16
        ≡ result_of m x y (wf / 2 ^ 3 % 2)
  latch_of add =
      omega (arith, alu_compute-sum_16 (core_of add b s) flags x y latch junk refl refl refl refl)
  latch_of adx = ground (
    arith,
    carry_of wf,
    alu_compute-sum_16 (core_of adx b s) flags x y latch junk refl refl refl refl,
  )
  latch_of sub =
      omega (arith, alu_compute-sum_16 (core_of sub b s) flags x y latch junk refl refl refl refl)
  latch_of sbx = ground (
    arith,
    carry_of wf,
    alu_compute-sum_16 (core_of sbx b s) flags x y latch junk refl refl refl refl,
  )
  latch_of cp =
      omega (arith, alu_compute-sum_16 (core_of cp b s) flags x y latch junk refl refl refl refl)
  latch_of and_op =
      rw
        (alu_compute-on_bits (core_of and_op b s) flags x y latch junk
          (IsPlain-core alu_and 0xcc b s (inl refl)))
        (omega (arith, op-lt and_law 16 (x % 2 ^ 16) (y % 2 ^ 16) (omega arith) (omega arith)))
  latch_of or_op =
      rw
        (alu_compute-on_bits (core_of or_op b s) flags x y latch junk
          (IsPlain-core alu_or 0xcc b s (inr (inl refl))))
        (omega (arith, op-lt or_law 16 (x % 2 ^ 16) (y % 2 ^ 16) (omega arith) (omega arith)))
  latch_of xor_op =
      rw
        (alu_compute-on_bits (core_of xor_op b s) flags x y latch junk
          (IsPlain-core alu_xor 0xcc b s (inr (inr refl))))
        (omega (arith, op-lt xor_law 16 (x % 2 ^ 16) (y % 2 ^ 16) (omega arith) (omega arith)))

-- What the instruction does not set.
kept_words :
    (m : Mnemonic) (b : ℕ) (s : PilotDecodeState)
    → (direct_of m b s).work_regs.imm_words ≡ s.work_regs.imm_words
kept_words add b s = refl
kept_words adx b s = refl
kept_words sub b s = refl
kept_words sbx b s = refl
kept_words and_op b s = refl
kept_words xor_op b s = refl
kept_words or_op b s = refl
kept_words cp b s = refl

kept_latch :
    (m : Mnemonic) (b : ℕ) (s : PilotDecodeState)
    → (core_of m b s).mem_latch_ctl ≡ s.work_regs.core_op.mem_latch_ctl
kept_latch add b s = refl
kept_latch adx b s = refl
kept_latch sub b s = refl
kept_latch sbx b s = refl
kept_latch and_op b s = refl
kept_latch xor_op b s = refl
kept_latch or_op b s = refl
kept_latch cp b s = refl

-- What is read at the codes 0 to 7: nothing, the size of a step, and the byte registers.
abbrev pub code_value : ℕ → (ℕ → ℕ) → ℕ → ℕ
code_value step regs zero = 0
code_value step regs (suc zero) = step
code_value step regs (suc (suc r)) =
    if ltb r 4 then regs r % 2 ^ 8 else regs (r - 4) / 2 ^ 8 % 2 ^ 8

-- What the field `a` of the opcode word selects as the first operand: not the register `a`.
abbrev pub first_read : PilotExecuteState → ℕ → ℕ
first_read s a =
    code_value (step_size s) s.sys.core.regs ((a + (if is_8_bit (buffer_size s) then 2 else 5)) % 8)

module _ (eext : ExecuteExterns) (t : PilotExecuteState) where
  read_as : (v w : ℕ) → v ≡ w → Path (Outcome (PilotExecuteState × ℕ)) (ok (t, v)) (ok (t, w))
  read_as v w h = rw h refl

  by_code :
      (r : ℕ)
      → r < 8
      → fetch_depth eext 1 t (offset data_zero r)
        ≡ ok (t, code_value (step_size t) t.sys.core.regs r)
  unfolding fetch_depth offset
  by_code =
      let low = λ (r : ℕ). read_as _ _ (bit_and-mask 8 (t.sys.core.regs r)) in
      let high = λ (r : ℕ). read_as _ _ (bit_and-mask 8 (t.sys.core.regs r / 2 ^ 8)) in
      below_8
        (λ r.
          fetch_depth eext 1 t (offset data_zero r)
          ≡ ok (t, code_value (step_size t) t.sys.core.regs r))
        refl refl (low 0) (low 1) (low 2) (low 3) (high 0) (high 1)

  -- A whole register.
  register-2 :
      (r : ℕ) → r < 8 → fetch_data eext t (offset data_reg_p0 r) ≡ ok (t, t.sys.core.regs r)
  unfolding fetch_data fetch_depth offset
  register-2 =
      below_8 (λ r. fetch_data eext t (offset data_reg_p0 r) ≡ ok (t, t.sys.core.regs r)) refl refl
        refl refl refl refl refl refl

  -- The code that the first operand is read at.
  operand_code :
      (w a : ℕ) (size : DataSizeSpec)
      → w / 2 ^ 8 % 8 ≡ a
      → bit_and (bus_code (if is_8_bit size then data_reg_l0 else data_reg_p0) + w / 2 ^ 8) 0x7
        ≡ (a + (if is_8_bit size then 2 else 5)) % 8
  unfolding bus_code
  operand_code w a size h = elim (Bool-cases (is_8_bit size)) [
    | inl e ↦ rw e (omega (arith, bit_and-mask 3 (2 + w / 2 ^ 8)))
    | inr e ↦ rw e (omega (arith, bit_and-mask 3 (21 + w / 2 ^ 8)))
  ]

  by_opcode :
      fetch_data eext t data_reg_imm_0_8
      ≡ (imm_word t 0 >>= λ w. fetch_depth eext 1 t (reg_bits (w >>> 8) (buffer_size t)))
  unfolding fetch_data fetch_depth
  by_opcode = refl

  first_fetched :
      (w a : ℕ)
      → t.decoded_inst.imm_words 0 ≡ w
      → w / 2 ^ 8 % 8 ≡ a
      → fetch_data eext t data_reg_imm_0_8 ≡ ok (t, first_read t a)
  first_fetched w a hw ha = rw by_opcode (
      rw hw (
        rw (operand_code w a (buffer_size t) ha)
          (by_code ((a + (if is_8_bit (buffer_size t) then 2 else 5)) % 8) (omega arith))))

-- The end of the cycle: the result is on the latch, and the machine is as it was.
abbrev pub Computed : ℕ → PilotExecuteState → PilotExecuteState → Type 0
Computed value x t =
    (t.alu_output_latch % 2 ^ 16 ≡ value)
    × (t.sys ≡ x.sys)
    × (t.execution_phase ≡ exec_advance_sequencer)

module _ (dext : DecodeExterns) (eext : ExecuteExterns) (op a b : ℕ) (ho : op < 15) (ha : a < 8)
    (hb : b < 8) (s : PilotDecodeState) (x : PilotExecuteState)
    (word : s.work_regs.imm_words 0 ≡ direct_word op a b)
    (no_access : s.work_regs.core_op.mem_latch_ctl ≡ mem_no_latch)
    (ready : x.execution_phase ≡ exec_half1_ready) (none_pending : x.mem_access_waiting ≡ false)
    (junk : ℕ) where
  abbrev wanted_value : ℕ
  wanted_value =
      result_of (mnemonic_of (op % 8)) (first_read x a) (x.sys.core.regs b)
        (x.sys.core.wf / 2 ^ 3 % 2)

  pub cycle-result :
      (m : Mnemonic)
      → Returns
          (Computed
            (result_of m (first_read x a) (x.sys.core.regs b) (x.sys.core.wf / 2 ^ 3 % 2))
            x)
          (pilot_execute_half1 eext (given x (direct_of m b s)) >>= pilot_execute_half2 eext junk)
  unfolding step_size
  cycle-result m =
      let x1 = given x (direct_of m b s) in
      let a' = first_read x a in
      let b' = x.sys.core.regs b in
      rw
        (cycle-alu_compute eext x1 (core_of m b s) a' b' refl ready none_pending
          (kept_latch m b s ∙ no_access)
          (first_fetched eext (enter exec_half1_operand_latch x1) (direct_word op a b) a
            (ap (λ f. f 0) (kept_words m b s) ∙ word) (omega arith))
          (register-2 eext (record (enter exec_half1_operand_latch x1) { alu_input0 = a' }) b hb)
          junk)
        (latch_of b s x.sys.core.wf a' b' x.alu_output_latch junk m, refl, refl)

  -- An arithmetic instruction (its operation field below 15, so not an immediate form) on the
  -- operand field `a` and the register `b`, both below 8, with 16-bit operands, is decoded from
  -- its opcode word and executed as the operation of the instruction, with ready halves, no access
  -- pending, and a control word that was left to make no access: both return, and the low 16 bits
  -- on the latch are what the table `result_of` gives for the instruction, of `first_read`, which
  -- is not the register `a` but one of the codes 0 to 7 of the data bus, of the register `b`, and
  -- of the carry, bit 3 of WF. The machine is unchanged: no register receives the result.
  pub decode-result : Returns (Computed wanted_value x) (
      decode_inst dext s >>= λ d.
      pilot_execute_half1 eext (given x d) >>= pilot_execute_half2 eext junk)
  decode-result =
      rw (decode_inst-direct dext op a b ho ha hb s word) (cycle-result (mnemonic_of (op % 8)))
