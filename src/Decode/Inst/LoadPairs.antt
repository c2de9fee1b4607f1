-- ===== src/Decode/Inst/LoadPairs.antt =====
-- pilot-cpu/cpu_decode.c: LD with two RM operands, from the opcode word.
use hexheld_emu.Bits.{bit_and-mask, bit_and-shifted}
use hexheld_emu.Decode.{DecodeExterns, PilotDecodeState, set_core}
use hexheld_emu.Decode.Inst.{decode_inst, decode_inst_ld_group, ld_two_rm, opcode_size}
use hexheld_emu.Decode.Inst.Groups.{decode_inst-group_of, group_of, ld_group}
use hexheld_emu.Decode.Inst.Loads.{first_operand, not_one_rm}
use hexheld_emu.Decode.Rm.{decode_rm_specifier, right_src}
use hexheld_emu.Decode.Rm.Destinations.{decode_rm_specifier-dest_operand, dest_operand}
use hexheld_emu.Decode.Rm.Modes.{AddressMode, IsMode, encode}
use hexheld_emu.Decode.Rm.Operands.{decode_rm_specifier-source_operand, source_operand}
use hexheld_emu.Decode.Rm.Pointer.{ReadsWords}
use hexheld_emu.Decode.Rm.Specifiers.{encode-lt}
use hexheld_emu.Prelude.{
  Outcome, Returns, ap, arith, bit_and, false, fault, ok, refl, true, ℕ, ◌%◌, ◌*◌, ◌+◌, ◌/◌, ◌<◌,
  ◌==◌, ◌>>=◌, ◌^◌, ◌∙◌, ◌≡◌, ◌≢◌,
}
use hexheld_emu.Types.{DataSizeSpec, alu_or, data_zero, flag_v_normal, shifter_none, size_of_code}

-- The opcode word of LD, with a size code and the modes of the source and of the destination.
abbrev pub ld_word : ℕ → AddressMode → AddressMode → ℕ
ld_word code from to = code * 2 ^ 14 + 0x1000 + encode to * 2 ^ 6 + encode from

-- What LD sets before its operands are decoded.
abbrev pub ld_prepared : DataSizeSpec → PilotDecodeState → PilotDecodeState
ld_prepared size = set_core λ c. record c {
  src2_add1 = false;
  src2_add_carry = false;
  src2_negate = false;
  flag_write_mask = 0;
  flag_v_mode = flag_v_normal;
  src0 = record c.src0 { location = data_zero; size = size };
  operation = alu_or;
  shifter_mode = shifter_none;
}

-- Two continuations that agree on what the first step returns.
agree :
    (P : PilotDecodeState → Type 0) (m : Outcome PilotDecodeState)
    (f g : PilotDecodeState → Outcome PilotDecodeState)
    → Returns P m
    → ((t : PilotDecodeState) → P t → f t ≡ g t)
    → (m >>= f) ≡ (m >>= g)
agree P (ok t) f g h k = k t h
agree P (fault e) f g h k = elim h [ ]

module _ (code : ℕ) (from to : AddressMode) (hc : code < 3) (hf : IsMode from) (ht : IsMode to)
    (two : encode to % 4 ≢ 3) where
  word-lt : ld_word code from to < 2 ^ 16
  word-lt = omega (arith, encode-lt from hf, encode-lt to ht)

  in_group : group_of (ld_word code from to / 2 ^ 12) ≡ ld_group
  in_group =
      let q = ld_word code from to / 2 ^ 12 in
      let top : q ≡ code * 4 + 1 = omega (arith, encode-lt from hf, encode-lt to ht) in
      let plain : (q / 4 == 3) ≡ false = ground arith in
      let low : q % 4 ≡ 1 = omega arith in rw plain (rw low refl)

  sized : opcode_size (ld_word code from to) ≡ size_of_code code
  sized =
      let w = ld_word code from to in
      let top : bit_and w 0xc000 / 2 ^ 14 ≡ code = omega (
        arith,
        bit_and-shifted 14 3 w,
        bit_and-mask 2 (w / 2 ^ 14),
        encode-lt from hf,
        encode-lt to ht,
      ) in
      rw top refl

  source_field : bit_and (ld_word code from to) 0x3f ≡ encode from
  source_field = omega (arith, bit_and-mask 6 (ld_word code from to), encode-lt from hf)

  dest_of_word : bit_and (ld_word code from to / 2 ^ 6) 0x3f ≡ encode to
  dest_of_word =
      omega
        (arith, bit_and-mask 6 (ld_word code from to / 2 ^ 6), encode-lt from hf, encode-lt to ht)

  two_operands : (bit_and (ld_word code from to) 0x00c0 == 0x00c0) ≡ false
  two_operands = not_one_rm (ld_word code from to) (omega (arith, two, encode-lt from hf))

  module _ (ext : DecodeExterns) (reads : ReadsWords ext) where
    pair-operands :
        (s : PilotDecodeState) (size : DataSizeSpec)
        → (decode_rm_specifier ext (record s { rm_ops = 0 }) (encode from) false false size >>= λ t.
            decode_rm_specifier ext t (encode to) true false size)
          ≡ (source_operand ext from right_src size s >>= dest_operand ext to)
    pair-operands s size =
        agree (λ t. t.rm_ops ≡ 1)
          (decode_rm_specifier ext (record s { rm_ops = 0 }) (encode from) false false size) _
          (dest_operand ext to)
          (first_operand ext reads (record s { rm_ops = 0 }) (encode from) false false size
            (encode-lt from hf) refl)
          (λ t one. decode_rm_specifier-dest_operand ext t to size ht one)
        ∙ ap (λ m. m >>= dest_operand ext to)
            (decode_rm_specifier-source_operand ext s from false size hf)

    group-operands :
        (s : PilotDecodeState)
        → decode_inst_ld_group ext (record s { rm_ops = 0 }) (ld_word code from to) ≡ (
            source_operand ext from right_src
              (size_of_code code)
              (ld_prepared (size_of_code code) s)
            >>= dest_operand ext to)
    unfolding decode_inst_ld_group ld_two_rm
    group-operands s =
        let size = size_of_code code in
        rw two_operands
          (rw sized (rw source_field (rw dest_of_word (pair-operands (ld_prepared size s) size))))

    -- LD of a size code below 3 from and to any two addressing modes, but for a destination that
    -- would be a short immediate, whose bits mean other instructions; with word reads that return
    -- and leave the operand count alone: the decoder on the opcode word does what `source_operand`
    -- says of the source, with an immediate taken from the latches that types.h gives to the
    -- second operand, and then what `dest_operand` says of the destination, which is a fault for a
    -- destination that is not in memory.
    pub decode_inst-pair :
        (s : PilotDecodeState)
        → s.work_regs.imm_words 0 ≡ ld_word code from to
        → decode_inst ext s ≡ (
            source_operand ext from right_src
              (size_of_code code)
              (ld_prepared (size_of_code code) s)
            >>= dest_operand ext to)
    decode_inst-pair s h =
        rw (decode_inst-group_of ext s (rw h word-lt)) (rw h (rw in_group (group-operands s)))
