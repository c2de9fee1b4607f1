-- ===== src/Execute/Alu/Shifts.antt =====
-- pilot-cpu/cpu_execute.c, `alu_operate_shifter_`: the shifts of a 16-bit operand as arithmetic.
use mathlib.Core.Option
use hexheld_emu.Bits.{bit_and-bit, bit_or-fields, bit_or-low}
use hexheld_emu.Execute.Alu.{
  alu_operate_shifter, has_bit, inject_bit, msb_bit, shift_left, shift_right, shifted,
}
use hexheld_emu.Prelude.{
  Bool, Option, ap, arith, bit, bit_and, false, leb, not, refl, u16, xor, ℕ, ◌%◌, ◌*◌, ◌+◌, ◌/◌,
  ◌<<<◌, ◌<◌, ◌==◌, ◌^◌, ◌∙◌, ◌≡◌,
}
use hexheld_emu.System.{f_carry}
use hexheld_emu.Types.{
  ExecuteControlWord, ShifterMode, shifter_left, shifter_left_barrel, shifter_left_carry,
  shifter_none, shifter_right_arith, shifter_right_barrel, shifter_right_carry,
  shifter_right_logical, size_16_bit,
}

-- What a shift by one place does to a 16-bit number; `carry` is the carry flag.
abbrev pub shift_value : ShifterMode → Bool → ℕ → ℕ
shift_value shifter_none carry x = x
shift_value shifter_left carry x = 2 * x % 2 ^ 16
shift_value shifter_left_carry carry x = 2 * x % 2 ^ 16 + bit carry
shift_value shifter_left_barrel carry x = 2 * x % 2 ^ 16 + x / 2 ^ 15
shift_value shifter_right_logical carry x = x / 2
shift_value shifter_right_arith carry x = x / 2 + x / 2 ^ 15 * 2 ^ 15
shift_value shifter_right_carry carry x = x / 2 + bit carry * 2 ^ 15
shift_value shifter_right_barrel carry x = x / 2 + x % 2 * 2 ^ 15

-- The carry it leaves.
abbrev pub shift_carry : ShifterMode → Bool → Bool → ℕ → Bool
shift_carry shifter_none inv before x = before
shift_carry shifter_left inv before x = xor (leb (2 ^ 15) x) inv
shift_carry shifter_left_carry inv before x = xor (leb (2 ^ 15) x) inv
shift_carry shifter_left_barrel inv before x = xor (leb (2 ^ 15) x) inv
shift_carry _ inv before x = xor (x % 2 == 1) inv

msb_16 : (x : ℕ) → x < 2 ^ 16 → msb_bit size_16_bit x ≡ leb (2 ^ 15) x
unfolding msb_bit
msb_16 x h = ground (arith, bit_and-bit 15 x)

lsb_16 : (x : ℕ) → not (bit_and x 1 == 0) ≡ (x % 2 == 1)
lsb_16 x = ground (arith, bit_and-bit 0 x)

left_16 : (x : ℕ) (b : Bool) → shift_left x b ≡ 2 * x % 2 ^ 16 + bit b
unfolding shift_left
left_16 x b =
    let even : u16 (x <<< 1) ≡ x % 2 ^ 15 * 2 ^ 1 = omega arith in
    rw even (ground (arith, bit_or-fields 1 (x % 2 ^ 15) (bit b)))

right_16 : (x : ℕ) (b : Bool) → x < 2 ^ 16 → shift_right size_16_bit x b ≡ x / 2 + bit b * 2 ^ 15
unfolding shift_right
right_16 x b h = ground (arith, bit_or-low 15 (bit b) (x / 2))

-- The carry that is kept, where one is given, and the number.
abbrev stored : Bool → Option Bool × ℕ → Bool × ℕ
stored before p = (Option.get_or p.0 before, p.1)

-- The two switches, once the two outer bits are known.
by_mode :
    (m : ShifterMode) (inv carry before : Bool) (x : ℕ)
    → x < 2 ^ 16
    → stored before (
        shifted m inv size_16_bit x
          (inject_bit m carry (leb (2 ^ 15) x) (x % 2 == 1))
          (leb (2 ^ 15) x)
          (x % 2 == 1))
      ≡ (shift_carry m inv before x, shift_value m carry x)
unfolding shifted inject_bit
by_mode shifter_none inv carry before x h = refl
by_mode shifter_left inv carry before x h =
    ap (λ (r : ℕ). (shift_carry shifter_left inv before x, r)) (left_16 x false ∙ ground arith)
by_mode shifter_left_carry inv carry before x h =
    ap (λ (r : ℕ). (shift_carry shifter_left_carry inv before x, r))
      (left_16 x carry ∙ ground arith)
by_mode shifter_left_barrel inv carry before x h =
    ap (λ (r : ℕ). (shift_carry shifter_left_barrel inv before x, r))
      (left_16 x (leb (2 ^ 15) x) ∙ ground arith)
by_mode shifter_right_logical inv carry before x h =
    ap (λ (r : ℕ). (shift_carry shifter_right_logical inv before x, r))
      (right_16 x false h ∙ ground arith)
by_mode shifter_right_arith inv carry before x h =
    ap (λ (r : ℕ). (shift_carry shifter_right_arith inv before x, r))
      (right_16 x (leb (2 ^ 15) x) h ∙ ground arith)
by_mode shifter_right_carry inv carry before x h =
    ap (λ (r : ℕ). (shift_carry shifter_right_carry inv before x, r))
      (right_16 x carry h ∙ ground arith)
by_mode shifter_right_barrel inv carry before x h =
    ap (λ (r : ℕ). (shift_carry shifter_right_barrel inv before x, r))
      (right_16 x (x % 2 == 1) h ∙ ground arith)

-- The shifter on a 16-bit operand, each mode: the shifted number, and the carry, the bit that is shifted out,
-- inverted with `invert_carries`. Without a shift both are what they were.
pub alu_operate_shifter-shift_value :
    (ctl : ExecuteControlWord) (flags : ℕ) (before : Bool) (x : ℕ)
    → ctl.src1.size ≡ size_16_bit
    → x < 2 ^ 16
    → alu_operate_shifter ctl flags before x ≡ (
      shift_carry ctl.shifter_mode ctl.invert_carries before x,
      shift_value ctl.shifter_mode (has_bit flags f_carry) x,
    )
unfolding alu_operate_shifter
alu_operate_shifter-shift_value ctl flags before x size small =
    let fits : u16 x ≡ x = omega arith in
    rw size (
      rw fits (
        rw (msb_16 x small) (
          rw (lsb_16 x)
            (by_mode ctl.shifter_mode ctl.invert_carries (has_bit flags f_carry) before x small))))
