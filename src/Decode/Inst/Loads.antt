-- ===== src/Decode/Inst/Loads.antt =====
-- pilot-cpu/cpu_decode.c, `decode_inst_ld_group_`: LD with two RM operands, LDSX and LEA.
use hexheld_emu.Bits.{bit_and-mask, bit_and-shifted}
use hexheld_emu.Decode.{DecodeExterns, PilotDecodeState}
use hexheld_emu.Decode.Inst.{decode_inst_ld_group, ld_one_rm, ld_two_rm, opcode_size}
use hexheld_emu.Decode.Rm.{decode_rm_specifier, rm_requires_mem_fetch}
use hexheld_emu.Decode.Rm.Pointer.{
  Counted, ReadsWords, decode_rm_specifier-returns, decode_rm_specifier-second_direct,
}
use hexheld_emu.Prelude.{
  Bool, Fault, Outcome, Returns-bind, arith, bit_and, false, fault, if◌then◌else◌, inl, inr, ok,
  true, u8, unset_pointer, ℕ, ◌%◌, ◌+◌, ◌/◌, ◌<◌, ◌==◌, ◌>>=◌, ◌>>>◌, ◌^◌, ◌≡◌, ◌≢◌,
}
use hexheld_emu.Types.{DataSizeSpec}

-- The destination field of LD.
abbrev pub dest_field : ℕ → ℕ
dest_field opcode = opcode / 2 ^ 6 % 64

rm_field_lt : (opcode : ℕ) → bit_and opcode 0x3f < 64
rm_field_lt opcode = omega (arith, bit_and-mask 6 opcode)

-- After one operand was counted, what the rest does.
after_one :
    (m : Outcome PilotDecodeState) (f : PilotDecodeState → Outcome PilotDecodeState) {e : Fault}
    → Counted 1 m
    → ((t : PilotDecodeState) → t.rm_ops ≡ 1 → f t ≡ fault e)
    → (m >>= f) ≡ fault e
after_one (ok t) f h k = k t h
after_one (fault e) f h k = elim h [ ]

pub not_one_rm : (opcode : ℕ) → opcode / 2 ^ 6 % 4 ≢ 3 → (bit_and opcode 0x00c0 == 0x00c0) ≡ false
not_one_rm opcode h = ground (arith, bit_and-shifted 6 3 opcode, bit_and-mask 2 (opcode / 2 ^ 6))

one_rm : (opcode : ℕ) → opcode / 2 ^ 6 % 4 ≡ 3 → bit_and opcode 0x00c0 ≡ 0x00c0
one_rm opcode h = omega (arith, bit_and-shifted 6 3 opcode, bit_and-mask 2 (opcode / 2 ^ 6))

lea_test : (opcode : ℕ) → opcode / 2 ^ 11 % 32 ≡ 0x13 → bit_and opcode 0xf800 ≡ 0x9800
lea_test opcode h = omega (arith, bit_and-shifted 11 31 opcode, bit_and-mask 5 (opcode / 2 ^ 11))

-- The dummy specifier of LEA with pre-decrement is 0 for every opcode: the mask has no bit that the
-- shift leaves.
pub lea_dummy_rm_zero : (opcode : ℕ) → u8 (bit_and opcode 0x0f80 >>> 12) ≡ 0
lea_dummy_rm_zero opcode =
    omega (arith, bit_and-shifted 7 31 opcode, bit_and-mask 5 (opcode / 2 ^ 7))

either_rm_ops :
    (b : Bool) (x y : PilotDecodeState) {n : ℕ}
    → x.rm_ops ≡ n
    → y.rm_ops ≡ n
    → (if b then x else y).rm_ops ≡ n
either_rm_ops true x y p q = p
either_rm_ops false x y p q = q

module _ (ext : DecodeExterns) (reads : ReadsWords ext) where
  -- The first operand of an instruction is decoded without a fault.
  pub first_operand :
      (s : PilotDecodeState) (rm : ℕ) (is_dest src_is_left : Bool) (size : DataSizeSpec)
      → rm < 64
      → s.rm_ops ≡ 0
      → Counted 1 (decode_rm_specifier ext s rm is_dest src_is_left size)
  first_operand s rm is_dest src_is_left size lt h =
      let count : s.rm_ops + 1 ≡ 1 = omega arith in
      rw count at (
        decode_rm_specifier-returns ext reads s rm is_dest src_is_left size lt (omega arith)
          (inl (omega arith)))

  -- LD into a register or an immediate, with no operand counted and word reads that return: the
  -- decoder writes through `run_mucode` without having set it, for every source operand and size.
  pub decode_inst_ld_group-direct_dest :
      (s : PilotDecodeState) (opcode : ℕ)
      → s.rm_ops ≡ 0
      → opcode / 2 ^ 6 % 4 ≢ 3
      → rm_requires_mem_fetch (dest_field opcode) ≡ false
      → decode_inst_ld_group ext s opcode ≡ fault unset_pointer
  unfolding decode_inst_ld_group ld_two_rm
  decode_inst_ld_group-direct_dest s opcode h two direct =
      rw (not_one_rm opcode two, bit_and-mask 6 (opcode / 2 ^ 6))
        (after_one _ _ (first_operand _ _ false false (opcode_size opcode) (rm_field_lt opcode) h)
          λ t e.
            decode_rm_specifier-second_direct ext t (dest_field opcode) true false
              (opcode_size opcode) (omega arith) e direct)

  -- LD into memory, with no operand counted and word reads that return: the decoder returns, with
  -- two operands counted.
  pub decode_inst_ld_group-memory_dest :
      (s : PilotDecodeState) (opcode : ℕ)
      → s.rm_ops ≡ 0
      → opcode / 2 ^ 6 % 4 ≢ 3
      → rm_requires_mem_fetch (dest_field opcode) ≡ true
      → Counted 2 (decode_inst_ld_group ext s opcode)
  unfolding decode_inst_ld_group ld_two_rm
  decode_inst_ld_group-memory_dest s opcode h two memory =
      rw (not_one_rm opcode two, bit_and-mask 6 (opcode / 2 ^ 6))
        (Returns-bind (λ t. t.rm_ops ≡ 1) _ _ _
          (first_operand _ _ false false (opcode_size opcode) (rm_field_lt opcode) h)
          λ t e.
            let count : t.rm_ops + 1 ≡ 2 = omega arith in
            rw count at (
              decode_rm_specifier-returns ext reads t (dest_field opcode) true false
                (opcode_size opcode) (omega arith) (omega arith) (inr memory)))

  -- LEA with pre-decrement from a register or an immediate, with no operand counted and word reads
  -- that return: the dummy operand, which is always 0, is the first, and so the source is decoded
  -- as the second and faults.
  pub decode_inst_ld_group-lea_direct :
      (s : PilotDecodeState) (opcode : ℕ)
      → s.rm_ops ≡ 0
      → opcode / 2 ^ 6 % 4 ≡ 3
      → opcode / 2 ^ 11 % 32 ≡ 0x13
      → rm_requires_mem_fetch (opcode % 64) ≡ false
      → decode_inst_ld_group ext s opcode ≡ fault unset_pointer
  unfolding decode_inst_ld_group ld_one_rm
  decode_inst_ld_group-lea_direct s opcode h one lea direct =
      rw (one_rm opcode one, lea_test opcode lea, lea_dummy_rm_zero opcode, bit_and-mask 6 opcode)
        (after_one _ _
          (first_operand _ 0 true false (opcode_size opcode) (omega arith)
            (either_rm_ops (bit_and opcode 0x8800 == 0x0800) _ _ h h))
          λ t e.
            decode_rm_specifier-second_direct ext t (opcode % 64) false false (opcode_size opcode)
              (omega arith) e direct)
