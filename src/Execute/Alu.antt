-- ===== src/Execute/Alu.antt =====
-- pilot-cpu/cpu_execute.c: the shifter, the flags, and the result latch of the ALU.
pub mod Operands
pub mod Add
pub mod Sums
pub mod Logic
pub mod Flags
pub mod Parity
pub mod LogicFlags
pub mod Shifts
use mathlib.Core.Option
use hexheld_emu.Prelude.{
  Bool, Option, bit, bit_and, bit_or, bit_xor, false, if◌then◌else◌, none, not, some, u16, u32, u8,
  xor, ℕ, ◌&&◌, ◌+◌, ◌-◌, ◌<<<◌, ◌==◌, ◌>>>◌, ◌^◌,
}
use hexheld_emu.System.{f_carry, f_decimal}
use hexheld_emu.Types.{
  AluOperation, AluSrcControl, DataSizeSpec, ExecuteControlWord, FlagVMode, ShifterMode, alu_add,
  alu_and, alu_off, alu_or, alu_xor, flag_v_clear, flag_v_normal, flag_v_shifter_carry, is_16_bit,
  is_8_bit, shifter_left, shifter_left_barrel, shifter_left_carry, shifter_none,
  shifter_right_arith, shifter_right_barrel, shifter_right_carry, shifter_right_logical,
}

-- `(x & mask) != 0`.
abbrev pub has_bit : ℕ → ℕ → Bool
has_bit x mask = not (bit_and x mask == 0)

-- `msb_bit` of the shifter, for a 16-bit operand.
unfoldable pub msb_bit : DataSizeSpec → ℕ → Bool
msb_bit size operand =
    if is_8_bit size
    then has_bit operand 0x80
    else if is_16_bit size
    then has_bit operand 0x8000
    else has_bit operand 0x800000

-- The first switch: the bit that is shifted in.
unfoldable pub inject_bit : ShifterMode → Bool → Bool → Bool → Bool
inject_bit shifter_none carry msb lsb = false
inject_bit shifter_left carry msb lsb = false
inject_bit shifter_right_logical carry msb lsb = false
inject_bit shifter_left_carry carry msb lsb = carry
inject_bit shifter_right_carry carry msb lsb = carry
inject_bit shifter_left_barrel carry msb lsb = msb
inject_bit shifter_right_arith carry msb lsb = msb
inject_bit shifter_right_barrel carry msb lsb = lsb

-- `operand <<= 1; operand |= inject_bit;` and the right shift, in a 16-bit variable.
unfoldable pub shift_left : ℕ → Bool → ℕ
shift_left operand inject = u16 (bit_or (u16 (operand <<< 1)) (bit inject))

unfoldable pub shift_right : DataSizeSpec → ℕ → Bool → ℕ
shift_right size operand inject =
    let place = if is_8_bit size then 7 else if is_16_bit size then 15 else 23 in
    u16 (bit_or (operand >>> 1) (bit inject <<< place))

-- The second switch: the carry out of the shifter, where it is stored, and the operand.
unfoldable pub shifted :
    ShifterMode → Bool → DataSizeSpec → ℕ → Bool → Bool → Bool → Option Bool × ℕ
shifted shifter_none inv size operand inject msb lsb = (none, operand)
shifted shifter_left inv size operand inject msb lsb =
    (some (xor msb inv), shift_left operand inject)
shifted shifter_left_carry inv size operand inject msb lsb =
    (some (xor msb inv), shift_left operand inject)
shifted shifter_left_barrel inv size operand inject msb lsb =
    (some (xor msb inv), shift_left operand inject)
shifted shifter_right_logical inv size operand inject msb lsb =
    (some (xor lsb inv), shift_right size operand inject)
shifted shifter_right_arith inv size operand inject msb lsb =
    (some (xor lsb inv), shift_right size operand inject)
shifted shifter_right_carry inv size operand inject msb lsb =
    (some (xor lsb inv), shift_right size operand inject)
shifted shifter_right_barrel inv size operand inject msb lsb =
    (some (xor lsb inv), shift_right size operand inject)

-- The function takes and returns a `uint16_t`; the second operand is cut to 16 bits at the call.
-- `flags` is the low byte of `wf`, and `carry` the shifter's carry bit before and after.
unfoldable pub alu_operate_shifter : ExecuteControlWord → ℕ → Bool → ℕ → Bool × ℕ
alu_operate_shifter ctl flags carry operand32 =
    let operand = u16 operand32 in
    let lsb = not (bit_and operand 1 == 0) in
    let msb = msb_bit ctl.src1.size operand in
    let inject = inject_bit ctl.shifter_mode (has_bit flags f_carry) msb lsb in
    let (out, result) =
      shifted ctl.shifter_mode ctl.invert_carries ctl.src1.size operand inject msb lsb in
    (Option.get_or out carry, result)

-- The folding of `alu_parity`, a 32-bit variable that is not cut to its lowest bit.
unfoldable pub fold_parity : DataSizeSpec → ℕ → ℕ
fold_parity size result =
    let p4 = bit_xor result (result >>> 4) in
    let p2 = bit_xor p4 (p4 >>> 2) in
    let p1 = bit_xor p2 (p2 >>> 1) in
    if is_8_bit size
    then p1
    else if is_16_bit size
    then bit_xor p1 (p1 >>> 8)
    else bit_xor p1 (bit_xor (p1 >>> 8) (p1 >>> 16))

-- The place of the sign bit, and the mask of the value, by the size of the first source.
abbrev pub sign_mask : DataSizeSpec → ℕ
sign_mask size = if is_8_bit size then 0x80 else if is_16_bit size then 0x8000 else 0x800000

abbrev pub is_zero_result : DataSizeSpec → ℕ → Bool
is_zero_result size result =
    if is_8_bit size
    then bit_and result 0xff == 0
    else if is_16_bit size
    then bit_and result 0xffff == 0
    else result == 0

-- The contribution of the V flag, a `switch` on its mode.
unfoldable pub v_source : FlagVMode → AluOperation → Bool → ℕ → Bool → ℕ
v_source flag_v_normal alu_add overflow parity shifter_carry = bit overflow <<< 2
v_source flag_v_normal _ overflow parity shifter_carry = parity <<< 2
v_source flag_v_shifter_carry _ overflow parity shifter_carry = bit shifter_carry <<< 2
v_source flag_v_clear _ overflow parity shifter_carry = 0

-- `flag_source_word`, a `uint8_t`.
unfoldable pub flag_source_word : ExecuteControlWord → Bool → ℕ → ℕ → ℕ → ℕ → ℕ
unfolding fold_parity v_source
flag_source_word ctl shifter_carry op0 op1 result carries =
    let size = ctl.src0.size in
    let carry = xor (has_bit carries (sign_mask size)) ctl.invert_carries in
    let neg = has_bit result (sign_mask size) in
    let overflow = has_bit (bit_and (bit_xor op1 result) (bit_xor op0 result)) (sign_mask size) in
    let zero' = is_zero_result size result in
    let nz = bit_or (bit neg <<< 7) (bit zero' <<< 6) in
    let v =
      v_source ctl.flag_v_mode ctl.operation overflow (fold_parity size result) shifter_carry in
    u8 (bit_or (bit_or (u8 (bit_or nz v)) (bit carry <<< 1)) (bit carry))

-- `flags & ~mask | source & mask`, on bytes.
unfoldable pub alu_modify_flags : ExecuteControlWord → Bool → ℕ → ℕ → ℕ → ℕ → ℕ → ℕ
alu_modify_flags ctl shifter_carry flags op0 op1 result carries =
    bit_or (bit_and flags (0xff - ctl.flag_write_mask))
      (bit_and (flag_source_word ctl shifter_carry op0 op1 result carries) ctl.flag_write_mask)

-- One round of the loop over the sources: cut to the size and extend the sign, in 32 bits.
unfoldable pub prepare_operand : AluSrcControl → ℕ → ℕ
prepare_operand src latch =
    if is_8_bit src.size
    then (let x = bit_and latch 0xff in
        if src.sign_extend && has_bit x 0x80 then bit_or x 0xffffff00 else x)
    else if is_16_bit src.size
    then (let x = bit_and latch 0xffff in
        if src.sign_extend && has_bit x 0x8000 then bit_or x 0xffff0000 else x)
    else bit_and latch 0xffffff

-- `src2_add1`, or else `src2_add_carry`.
unfoldable pub add_to_operand : ExecuteControlWord → Bool → ℕ → ℕ
add_to_operand ctl carry_flag x =
    if ctl.src2_add1
    then u32 (x + 1)
    else if ctl.src2_add_carry
    then u32 (x + bit carry_flag)
    else x

-- `~x + 1` in 32 bits, cut to the size unless the sign is extended.
unfoldable pub negate_operand : ExecuteControlWord → ℕ → ℕ
negate_operand ctl x =
    let y = u32 (2 ^ 32 - 1 - x + 1) in
    if not ctl.src2_negate
    then x
    else if is_8_bit ctl.src1.size && not ctl.src1.sign_extend
    then bit_and y 0xff
    else if is_16_bit ctl.src1.size && not ctl.src1.sign_extend
    then bit_and y 0xffff
    else if not ctl.src1.sign_extend
    then bit_and y 0xffffff
    else y

-- The switch on the operation: the output latch and `carries`, which `ALU_OFF` leaves as they were.
unfoldable pub alu_result : AluOperation → ℕ → ℕ → ℕ → ℕ → ℕ × ℕ
alu_result alu_off op0 op1 latch junk = (latch, junk)
alu_result alu_add op0 op1 latch junk =
    let sum = bit_and (u32 (op0 + op1)) 0xffffff in (sum, bit_xor (bit_xor op0 op1) sum)
alu_result alu_and op0 op1 latch junk = (bit_and op0 op1, 0)
alu_result alu_or op0 op1 latch junk = (bit_or op0 op1, 0)
alu_result alu_xor op0 op1 latch junk = (bit_xor op0 op1, 0)

-- The decimal correction.
unfoldable pub decimal_adjust : ExecuteControlWord → ℕ → ℕ → ℕ → ℕ × ℕ → ℕ × ℕ
decimal_adjust ctl flags op0 op1 (latch, carries) =
    if is_8_bit ctl.src0.size && has_bit flags f_decimal && has_bit carries 0x08
    then (let latch' = u32 (latch + 0x10) in
        (latch', bit_or (bit_and carries 0x0f) (bit_and (bit_xor (bit_xor op0 op1) latch') 0xf0)))
    else (latch, carries)

-- What the result latch computes: the output latch, the shifter's carry, and `flags`, a local variable
-- that nothing reads afterwards.
pub record AluResult : Type 0 where
  pub latch : ℕ
  pub shifter_carry : Bool
  pub flags : ℕ

-- `junk` is what the local `carries` holds under `ALU_OFF`.
unfoldable pub alu_compute : ExecuteControlWord → ℕ → ℕ → ℕ → ℕ → ℕ → AluResult
alu_compute ctl flags in0 in1 old_latch junk =
    let op0 = prepare_operand ctl.src0 in0 in
    let x1 = prepare_operand ctl.src1 in1 in
    let y1 = negate_operand ctl (add_to_operand ctl (has_bit flags f_carry) x1) in
    let (carry, op1) = alu_operate_shifter ctl flags false y1 in
    let (latch, carries) =
      decimal_adjust ctl flags op0 op1 (alu_result ctl.operation op0 op1 old_latch junk) in
    let written = alu_modify_flags ctl carry flags op0 op1 latch carries in
    record {
      latch = latch;
      shifter_carry = carry;
      flags = elim ctl.operation [ alu_off ↦ flags | _ ↦ written ];
    }
