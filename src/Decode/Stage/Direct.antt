-- ===== src/Decode/Stage/Direct.antt =====
-- pilot-cpu/cpu_decode.c: the two half cycles, from an idle decoder to an arithmetic instruction on
-- registers that is handed over.
use hexheld_emu.Decode.{
  DecodeExterns, PilotDecodeState, decoder_half1_dispatch_wait, decoder_half1_read_inst_word,
  decoder_half1_ready, decoder_half2_read_operands,
}
use hexheld_emu.Decode.Inst.Arithmetic.{
  Mnemonic, add, adx, and_op, cp, mnemonic_of, or_op, sbx, sub, xor_op,
}
use hexheld_emu.Decode.Inst.Direct.{decode_inst-direct, direct_of, direct_word}
use hexheld_emu.Decode.Stage.{
  begin_instruction, dispatch_decoded, pilot_decode_half1, pilot_decode_half2, raise_semaph,
  read_inst_word, read_operand, read_operands, semaph,
}
use hexheld_emu.Prelude.{ap, false, inl, inr, ok, refl, true, u8, ℕ, ◌%◌, ◌+◌, ◌<◌, ◌∙◌, ◌≡◌, ◌⊎◌}

-- The decoder can begin: it is ready, or its last instruction was taken.
abbrev pub IsIdle : PilotDecodeState → Type 0
IsIdle s =
    (s.decoding_phase ≡ decoder_half1_ready)
    ⊎ ((s.decoding_phase ≡ decoder_half1_dispatch_wait) × (semaph s ≡ false))

-- The instruction has begun, and its opcode word is asked for.
abbrev pub begun : PilotDecodeState → PilotDecodeState
begun s = record s { inst_length = 0; decoding_phase = decoder_half1_read_inst_word }

-- The opcode word is counted.
abbrev pub counted : PilotDecodeState → PilotDecodeState
counted s = record s { inst_length = u8 (s.inst_length + 1) }

-- The instruction is handed over.
abbrev pub handed : PilotDecodeState → PilotDecodeState
handed d = record d {
  work_regs = record d.work_regs { inst_pgc = d.pgc };
  sys = raise_semaph d.sys;
  decoding_phase = decoder_half1_dispatch_wait;
}

begin_instruction-begun : (s : PilotDecodeState) → IsIdle s → begin_instruction s ≡ begun s
unfolding begin_instruction
begin_instruction-begun s (inl h) = rw h refl
begin_instruction-begun s (inr (h, low)) = rw h (rw low refl)

-- The counter of the program is in the instruction.
abbrev pub stamped : PilotDecodeState → PilotDecodeState
stamped s = record s { work_regs = record s.work_regs { inst_pgc = s.pgc } }

-- An arithmetic instruction on registers is handed over.
abbrev pub offering_direct : Mnemonic → ℕ → PilotDecodeState → PilotDecodeState
offering_direct m b s = record s {
  work_regs = (direct_of m b (stamped s)).work_regs;
  rm_ops = 1;
  sys = raise_semaph s.sys;
  decoding_phase = decoder_half1_dispatch_wait;
}

handed-direct :
    (m : Mnemonic) (b : ℕ) (s : PilotDecodeState) → handed (direct_of m b s) ≡ offering_direct m b s
handed-direct add b s = refl
handed-direct adx b s = refl
handed-direct sub b s = refl
handed-direct sbx b s = refl
handed-direct and_op b s = refl
handed-direct xor_op b s = refl
handed-direct or_op b s = refl
handed-direct cp b s = refl

-- What the instruction does not set.
kept_count :
    (m : Mnemonic) (b : ℕ) (s : PilotDecodeState)
    → (direct_of m b s).words_to_read ≡ s.words_to_read
kept_count add b s = refl
kept_count adx b s = refl
kept_count sub b s = refl
kept_count sbx b s = refl
kept_count and_op b s = refl
kept_count xor_op b s = refl
kept_count or_op b s = refl
kept_count cp b s = refl

pub kept_override :
    (m : Mnemonic) (b : ℕ) (s : PilotDecodeState)
    → (direct_of m b s).work_regs.override_op ≡ s.work_regs.override_op
kept_override add b s = refl
kept_override adx b s = refl
kept_override sub b s = refl
kept_override sbx b s = refl
kept_override and_op b s = refl
kept_override xor_op b s = refl
kept_override or_op b s = refl
kept_override cp b s = refl

pub kept_before :
    (m : Mnemonic) (b : ℕ) (s : PilotDecodeState)
    → (direct_of m b s).work_regs.run_before ≡ s.work_regs.run_before
kept_before add b s = refl
kept_before adx b s = refl
kept_before sub b s = refl
kept_before sbx b s = refl
kept_before and_op b s = refl
kept_before xor_op b s = refl
kept_before or_op b s = refl
kept_before cp b s = refl

-- An instruction that wants no more words is handed over at once.
half2_hands :
    (ext : DecodeExterns) (d : PilotDecodeState)
    → d.words_to_read ≡ 0
    → pilot_decode_half2 ext (record d { decoding_phase = decoder_half2_read_operands })
      ≡ ok (handed d)
unfolding pilot_decode_half2 read_operands read_operand dispatch_decoded
half2_hands ext d h = rw h refl

module _ (ext : DecodeExterns) (op a b : ℕ) (ho : op < 15) (ha : a < 8) (hb : b < 8)
    (s t : PilotDecodeState) (idle : IsIdle s)
    (delivered : ext.try_read_word (begun s) ≡ ok (t, true))
    (word : t.work_regs.imm_words 0 ≡ direct_word op a b) where
  abbrev pub decoded : PilotDecodeState
  decoded = record (direct_of (mnemonic_of (op % 8)) b (counted t)) {
    decoding_phase = decoder_half2_read_operands;
  }

  pub half1-decoded : pilot_decode_half1 ext s ≡ ok decoded
  unfolding pilot_decode_half1 read_inst_word
  half1-decoded =
      rw (begin_instruction-begun s idle)
        (rw delivered (rw (decode_inst-direct ext op a b ho ha hb (counted t) word) refl))

  pub half2-handed :
      t.words_to_read ≡ 0
      → pilot_decode_half2 ext decoded ≡ ok (offering_direct (mnemonic_of (op % 8)) b (counted t))
  half2-handed no_words =
      half2_hands ext (direct_of (mnemonic_of (op % 8)) b (counted t))
        (kept_count (mnemonic_of (op % 8)) b (counted t) ∙ no_words)
      ∙ ap ok (handed-direct (mnemonic_of (op % 8)) b (counted t))
