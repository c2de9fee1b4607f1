-- ===== src/Execute/Write/FallThrough.antt =====
-- pilot-cpu/cpu_execute.c, `write_data_`: the cases that name a register by a field of an instruction
-- word run into one another.
use hexheld_emu.Execute.{ExecuteExterns, PilotExecuteState}
use hexheld_emu.Execute.Fetch.{field_2, field_8}
use hexheld_emu.Execute.Write.{set_reg, write_data}
use hexheld_emu.Prelude.{arith, ok, update, ℕ, ◌<◌, ◌≡◌}
use hexheld_emu.Types.{data_reg_imm_0_8, imm_words_len}

-- `v` is what register `r` holds.
abbrev pub Holds : ℕ → PilotExecuteState → ℕ → Type 0
Holds v t r = t.sys.core.regs r ≡ v

-- Five stores of one value, last on the left: each place that was stored to holds the value.
module _ (f : ℕ → ℕ) (v a b c d e : ℕ) where
  abbrev five : ℕ → ℕ
  five = update (update (update (update (update f a v) b v) c v) d v) e v

  five-a : five a ≡ v
  five-a = ground arith

  five-b : five b ≡ v
  five-b = ground arith

  five-c : five c ≡ v
  five-c = ground arith

  five-d : five d ≡ v
  five-d = ground arith

  five-e : five e ≡ v
  five-e = ground arith

module _ (ext : ExecuteExterns) (s : PilotExecuteState) (v : ℕ) where
  -- The word of the first operand, the next word, and the word of the second operand.
  abbrev w0 : ℕ
  w0 = s.decoded_inst.imm_words 0

  abbrev w1 : ℕ
  w1 = s.decoded_inst.imm_words 1

  abbrev w2 : ℕ
  w2 = s.decoded_inst.imm_words s.decoded_inst.rm2_offset

  abbrev regs : ℕ → ℕ
  regs = s.sys.core.regs

  abbrev final : PilotExecuteState
  final = set_reg (field_2 w2) v (
      set_reg (field_8 w2) v
        (set_reg (field_2 w1) v (set_reg (field_8 w1) v (set_reg (field_8 w0) v s))))

  -- A write to the destination register of the opcode word, where the second operand's word exists:
  -- the value is also stored in the registers that two fields of the next word and two fields of
  -- the second operand's word name, and the whole 32-bit value is stored, not its low 24 bits.
  pub write_data-imm_0_8 :
      s.decoded_inst.rm2_offset < imm_words_len
      → (t : PilotExecuteState) × (write_data ext s data_reg_imm_0_8 v ≡ ok t)
        × Holds v t (field_8 w0)
        × Holds v t (field_8 w1)
        × Holds v t (field_2 w1)
        × Holds v t (field_8 w2)
        × Holds v t (field_2 w2)
  unfolding write_data
  write_data-imm_0_8 h = (
    final,
    ground arith,
    five-a regs v (field_8 w0) (field_8 w1) (field_2 w1) (field_8 w2) (field_2 w2),
    five-b regs v (field_8 w0) (field_8 w1) (field_2 w1) (field_8 w2) (field_2 w2),
    five-c regs v (field_8 w0) (field_8 w1) (field_2 w1) (field_8 w2) (field_2 w2),
    five-d regs v (field_8 w0) (field_8 w1) (field_2 w1) (field_8 w2) (field_2 w2),
    five-e regs v (field_8 w0) (field_8 w1) (field_2 w1) (field_8 w2) (field_2 w2),
  )
