-- ===== src/Decode/Stage.antt =====
-- pilot-cpu/cpu_decode.c: the two half cycles of the decode stage.
pub mod Handover
pub mod Operands
pub mod Direct
use hexheld_emu.Decode.{
  DecodeExterns, DecodingPhase, PilotDecodeState, decoder_half1_dispatch_wait,
  decoder_half1_read_inst_word, decoder_half1_ready, decoder_half2_dispatch,
  decoder_half2_read_operands,
}
use hexheld_emu.Decode.Inst.{decode_inst}
use hexheld_emu.Prelude.{
  Bool, Outcome, false, if◌then◌else◌, ltb, not, ok, true, u8, ◌&&◌, ◌+◌, ◌==◌, ◌>>=◌, ◌>>◌,
}
use hexheld_emu.System.{PilotSystem}

-- `decoding_phase == …`.
abbrev pub at_dispatch_wait : DecodingPhase → Bool
at_dispatch_wait decoder_half1_dispatch_wait = true
at_dispatch_wait _ = false

abbrev pub at_ready : DecodingPhase → Bool
at_ready decoder_half1_ready = true
at_ready _ = false

abbrev pub at_read_inst_word : DecodingPhase → Bool
at_read_inst_word decoder_half1_read_inst_word = true
at_read_inst_word _ = false

abbrev pub at_read_operands : DecodingPhase → Bool
at_read_operands decoder_half2_read_operands = true
at_read_operands _ = false

abbrev pub at_dispatch : DecodingPhase → Bool
at_dispatch decoder_half2_dispatch = true
at_dispatch _ = false

-- Reads and writes of `sys->interconnects.decoded_inst_semaph`.
abbrev pub semaph : PilotDecodeState → Bool
semaph s = s.sys.interconnects.decoded_inst_semaph

abbrev pub raise_semaph : PilotSystem → PilotSystem
raise_semaph sys = record sys {
  interconnects = record sys.interconnects { decoded_inst_semaph = true };
}

unfoldable pub decode_queue_read_word : PilotDecodeState → PilotDecodeState
decode_queue_read_word s = record s {
  inst_length = u8 (s.inst_length + 1);
  words_to_read = u8 (s.words_to_read + 1);
}

-- The two blocks of the first half before the opcode is read.
unfoldable pub begin_instruction : PilotDecodeState → PilotDecodeState
begin_instruction s =
    let s1 =
      if at_dispatch_wait s.decoding_phase && not (semaph s)
      then record s { decoding_phase = decoder_half1_ready }
      else s in
    if at_ready s1.decoding_phase
    then record s1 { inst_length = 0; decoding_phase = decoder_half1_read_inst_word }
    else s1

-- The block of the second half that hands the instruction over.
unfoldable pub dispatch_decoded : PilotDecodeState → PilotDecodeState
dispatch_decoded s =
    if at_dispatch s.decoding_phase
    then record s {
      work_regs = record s.work_regs { inst_pgc = s.pgc };
      sys = raise_semaph s.sys;
      decoding_phase = decoder_half1_dispatch_wait;
    }
    else s

module _ (ext : DecodeExterns) where
  -- The block that reads the opcode word and decodes it.
  unfoldable pub read_inst_word : PilotDecodeState → Outcome PilotDecodeState
  read_inst_word s = do
    (s1, read_ok) ← ext.try_read_word s
    if read_ok
        then (decode_inst ext (record s1 { inst_length = u8 (s1.inst_length + 1) }) >>= λ s2.
            ok (record s2 { decoding_phase = decoder_half2_read_operands }))
        else ok s1

  unfoldable pub pilot_decode_half1 : PilotDecodeState → Outcome PilotDecodeState
  unfolding begin_instruction
  pilot_decode_half1 s =
      let s1 = begin_instruction s in
      if at_read_inst_word s1.decoding_phase then read_inst_word s1 else ok s1

  -- One more operand word, if any is wanted.
  unfoldable pub read_operand : PilotDecodeState → Outcome PilotDecodeState
  read_operand s =
      if ltb 0 s.words_to_read
      then (ext.try_read_word s >>= λ r.
          ok (if r.1 then record r.0 { words_to_read = u8 (r.0.words_to_read + 255) } else r.0))
      else ok s

  unfoldable pub read_operands : PilotDecodeState → Outcome PilotDecodeState
  read_operands s = do
    s1 ← read_operand s
    ok (if s1.words_to_read == 0 then record s1 { decoding_phase = decoder_half2_dispatch } else s1)

  unfoldable pub pilot_decode_half2 : PilotDecodeState → Outcome PilotDecodeState
  unfolding dispatch_decoded
  pilot_decode_half2 s = do
    s1 ← if at_read_operands s.decoding_phase then read_operands s else ok s
    ok (dispatch_decoded s1)
