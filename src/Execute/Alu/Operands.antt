-- ===== src/Execute/Alu/Operands.antt =====
-- pilot-cpu/cpu_execute.c: what reaches the two inputs of the ALU, as arithmetic.
use hexheld_emu.Bits.{bit_and-bit, bit_and-mask, bit_or-low}
use hexheld_emu.Execute.Alu.{has_bit, prepare_operand}
use hexheld_emu.Prelude.{
  Bool, arith, bit_or, if◌then◌else◌, leb, refl, ℕ, ◌%◌, ◌&&◌, ◌*◌, ◌+◌, ◌-◌, ◌<◌, ◌^◌, ◌∙◌, ◌≡◌,
}
use hexheld_emu.Types.{
  AluSrcControl, DataSizeSpec, size_16_bit, size_24_bit, size_8_bit, size_code_3,
}

-- The value of `w` bits, extended to 32 bits where its sign is set and is to be extended.
abbrev pub extend : ℕ → ℕ → Bool → ℕ
extend half x sign = if sign && leb half x then x + (2 ^ 32 - 2 * half) else x

-- An operand as `prepare_operand` makes it: cut to its size, then sign-extended to 32 bits if asked,
-- but never from 24 bits.
abbrev pub operand_value : DataSizeSpec → Bool → ℕ → ℕ
operand_value size_8_bit sign x = extend 0x80 (x % 2 ^ 8) sign
operand_value size_16_bit sign x = extend 0x8000 (x % 2 ^ 16) sign
operand_value _ sign x = x % 2 ^ 24

sign_8 : (x : ℕ) → x < 2 ^ 8 → has_bit x 0x80 ≡ leb 0x80 x
sign_8 x h = ground (arith, bit_and-bit 7 x)

sign_16 : (x : ℕ) → x < 2 ^ 16 → has_bit x 0x8000 ≡ leb 0x8000 x
sign_16 x h = ground (arith, bit_and-bit 15 x)

extended_8 : (x : ℕ) → x < 2 ^ 8 → bit_or x 0xffffff00 ≡ x + (2 ^ 32 - 2 * 0x80)
extended_8 x h = bit_or-low 8 0xffffff x h ∙ omega arith

extended_16 : (x : ℕ) → x < 2 ^ 16 → bit_or x 0xffff0000 ≡ x + (2 ^ 32 - 2 * 0x8000)
extended_16 x h = bit_or-low 16 0xffff x h ∙ omega arith

-- The two widths that are extended, once the operand is cut to them.
extend_8 :
    (x : ℕ) (sign : Bool)
    → x < 2 ^ 8
    → (if sign && has_bit x 0x80 then bit_or x 0xffffff00 else x) ≡ extend 0x80 x sign
extend_8 x sign h = rw (sign_8 x h) (rw (extended_8 x h) refl)

extend_16 :
    (x : ℕ) (sign : Bool)
    → x < 2 ^ 16
    → (if sign && has_bit x 0x8000 then bit_or x 0xffff0000 else x) ≡ extend 0x8000 x sign
extend_16 x sign h = rw (sign_16 x h) (rw (extended_16 x h) refl)

of_size :
    (size : DataSizeSpec) (src : AluSrcControl) (latch : ℕ)
    → src.size ≡ size
    → prepare_operand src latch ≡ operand_value size src.sign_extend latch
unfolding prepare_operand
of_size size_8_bit src latch h =
    rw h (rw (bit_and-mask 8 latch) (extend_8 (latch % 2 ^ 8) src.sign_extend (omega arith)))
of_size size_16_bit src latch h =
    rw h (rw (bit_and-mask 16 latch) (extend_16 (latch % 2 ^ 16) src.sign_extend (omega arith)))
of_size size_24_bit src latch h = rw h (bit_and-mask 24 latch)
of_size size_code_3 src latch h = rw h (bit_and-mask 24 latch)

-- Both operands are cut to the size their source asks for, and 8-bit and 16-bit operands are extended by
-- their sign to 32 bits where that is asked; a 24-bit operand never is.
pub prepare_operand-operand_value :
    (src : AluSrcControl) (latch : ℕ)
    → prepare_operand src latch ≡ operand_value src.size src.sign_extend latch
prepare_operand-operand_value src latch = of_size src.size src latch refl
