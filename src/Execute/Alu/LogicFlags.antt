-- ===== src/Execute/Alu/LogicFlags.antt =====
-- pilot-cpu/cpu_execute.c, `alu_modify_flags_`: the flags of a bitwise operation.
use Prim.Native.Nat.{max}
use hexheld_emu.Bits.{digit_at, or_law}
use hexheld_emu.Execute.Alu.{
  flag_source_word, fold_parity, has_bit, is_zero_result, sign_mask, v_source,
}
use hexheld_emu.Execute.Alu.Parity.{fold_parity-ones, ones, width_of}
use hexheld_emu.Prelude.{
  Bool, ap, arith, bit, bit_or, refl, sym, u8, xor, ℕ, ◌%◌, ◌/◌, ◌<<<◌, ◌^◌, ◌∙◌, ◌≡◌, ◌⊎◌,
}
use hexheld_emu.Types.{
  AluOperation, ExecuteControlWord, alu_add, alu_and, alu_off, alu_or, alu_xor, flag_v_normal,
}

-- One of the bitwise operations.
abbrev pub IsLogic : AluOperation → Type 0
IsLogic op = (op ≡ alu_and) ⊎ ((op ≡ alu_or) ⊎ (op ≡ alu_xor))

v_source-logic :
    (op : AluOperation) (overflow : Bool) (parity : ℕ) (shifter_carry : Bool)
    → IsLogic op
    → v_source flag_v_normal op overflow parity shifter_carry ≡ parity <<< 2
unfolding v_source
v_source-logic alu_and overflow parity shifter_carry h = refl
v_source-logic alu_or overflow parity shifter_carry h = refl
v_source-logic alu_xor overflow parity shifter_carry h = refl
v_source-logic alu_off overflow parity shifter_carry h = absurd (ground (arith, h))
v_source-logic alu_add overflow parity shifter_carry h = absurd (ground (arith, h))

-- A digit of the byte that the code puts together.
module _ (k : ℕ) (low : (y : ℕ) → y % 2 ^ 8 / 2 ^ k % 2 ≡ y / 2 ^ k % 2) (n z v c d : ℕ) where
  abbrev at : ℕ → ℕ
  at y = y / 2 ^ k % 2

  byte-digit :
      at (u8 (bit_or (bit_or (u8 (bit_or (bit_or n z) v)) c) d))
      ≡ max (max (max (max (at n) (at z)) (at v)) (at c)) (at d)
  byte-digit = rw (low (bit_or (bit_or (u8 (bit_or (bit_or n z) v)) c) d)) (
      rw (digit_at or_law k (bit_or (u8 (bit_or (bit_or n z) v)) c) d) (
        rw (digit_at or_law k (u8 (bit_or (bit_or n z) v)) c) (
          rw (low (bit_or (bit_or n z) v))
            (rw (digit_at or_law k (bit_or n z) v) (rw (digit_at or_law k n z) refl)))))

module _ (n z c : Bool) (v : ℕ) where
  abbrev byte : ℕ
  byte = u8 (
      bit_or (bit_or (u8 (bit_or (bit_or (bit n <<< 7) (bit z <<< 6)) (v <<< 2))) (bit c <<< 1))
        (bit c))

  byte_2 : byte / 2 ^ 2 % 2 ≡ v % 2
  byte_2 = byte-digit 2 (λ y. omega arith) _ _ _ _ _ ∙ ground arith

  byte_6 : byte / 2 ^ 6 % 2 ≡ max (bit z) (v / 2 ^ 4 % 2)
  byte_6 = byte-digit 6 (λ y. omega arith) _ _ _ _ _ ∙ ground arith

  byte_7 : byte / 2 ^ 7 % 2 ≡ max (bit n) (v / 2 ^ 5 % 2)
  byte_7 = byte-digit 7 (λ y. omega arith) _ _ _ _ _ ∙ ground arith

whole : (y : ℕ) → y / 2 ^ 0 ≡ y
whole y = omega arith

module _ (ctl : ExecuteControlWord) (shifter_carry : Bool) (op0 op1 result carries : ℕ) where
  abbrev word : ℕ
  word = flag_source_word ctl shifter_carry op0 op1 result carries

  abbrev carry_flag : Bool
  carry_flag = xor (has_bit carries (sign_mask ctl.src0.size)) ctl.invert_carries

  word-byte :
      ctl.flag_v_mode ≡ flag_v_normal
      → IsLogic ctl.operation
      → word
        ≡ byte
            (has_bit result (sign_mask ctl.src0.size))
            (is_zero_result ctl.src0.size result)
            carry_flag
            (fold_parity ctl.src0.size result)
  unfolding flag_source_word
  word-byte mode logic = rw mode (
      rw (v_source-logic ctl.operation _ (fold_parity ctl.src0.size result) shifter_carry logic)
        refl)

  -- In a bitwise operation of any size, in the normal mode of V: of the flags that may be written,
  -- V (bit 2) is the parity of the digits of the result that its size has, set where it is odd. Z
  -- (bit 6) is set where the result is zero, but also where the parity of as many digits from
  -- place 4 up is odd, and N (bit 7) where the result is negative, but also where that from place
  -- 5 up is odd.
  pub flag_source_word-logic :
      ctl.flag_v_mode ≡ flag_v_normal
      → IsLogic ctl.operation
      → (word / 2 ^ 2 % 2 ≡ ones (width_of ctl.src0.size) result % 2)
        × (word / 2 ^ 6 % 2
            ≡ max
                (bit (is_zero_result ctl.src0.size result))
                (ones (width_of ctl.src0.size) (result / 2 ^ 4) % 2))
        × (word / 2 ^ 7 % 2
            ≡ max
                (bit (has_bit result (sign_mask ctl.src0.size)))
                (ones (width_of ctl.src0.size) (result / 2 ^ 5) % 2))
  flag_source_word-logic mode logic =
      let size = ctl.src0.size in
      let n = has_bit result (sign_mask size) in
      let z = is_zero_result size result in
      let v = fold_parity size result in
      rw (word-byte mode logic) (
        byte_2 n z carry_flag v
            ∙ ap (λ y. y % 2) (sym (whole v))
            ∙ fold_parity-ones size 0 result
            ∙ ap (λ y. ones (width_of size) y % 2) (whole result),
        byte_6 n z carry_flag v ∙ ap (max (bit z)) (fold_parity-ones size 4 result),
        byte_7 n z carry_flag v ∙ ap (max (bit n)) (fold_parity-ones size 5 result),
      )
