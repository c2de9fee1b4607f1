-- ===== src/Decode/Widths/Stage.antt =====
-- pilot-cpu/cpu_decode.c: the widths through the two half cycles of the decode stage.
use hexheld_emu.Decode.{
  DecodeExterns, DecodingPhase, PilotDecodeState, decoder_half1_dispatch_wait,
  decoder_half1_read_inst_word, decoder_half1_ready, decoder_half2_dispatch,
  decoder_half2_read_operands,
}
use hexheld_emu.Decode.Stage.{
  at_dispatch, at_dispatch_wait, at_read_inst_word, at_read_operands, at_ready, begin_instruction,
  dispatch_decoded, pilot_decode_half1, pilot_decode_half2, raise_semaph, read_inst_word,
  read_operand, read_operands, semaph,
}
use hexheld_emu.Decode.Widths.{
  DecodeFits, LeavesMachine, Unmoved, Unmoved-refl, Unmoved-trans, assigned, branch-Unmoved,
  choice-Unmoved, from-Unmoved, then-Unmoved, work_regs-Unmoved,
}
use hexheld_emu.Decode.Widths.Inst.{decode_inst-Unmoved}
use hexheld_emu.Prelude.{
  Bool, Ensures, Ensures-bind, arith, if◌then◌else◌, ltb, not, ok, refl, u8, ℕ, ◌&&◌, ◌+◌, ◌<◌,
  ◌==◌, ◌^◌,
}

-- The variables of the stage alone.
variables-Unmoved :
    (s : PilotDecodeState) (length wanted : ℕ) (phase : DecodingPhase)
    → (DecodeFits s → (length < 2 ^ 8) × (wanted < 2 ^ 8))
    → Unmoved s (record s { inst_length = length; words_to_read = wanted; decoding_phase = phase })
variables-Unmoved s length wanted phase h =
    assigned s s.work_regs length wanted s.rm_ops phase (λ f. f.inst) refl (λ e. e)
      λ f. ((h f).0, (h f).1, f.count)

phase-Unmoved :
    (s : PilotDecodeState) (phase : DecodingPhase) → Unmoved s (record s { decoding_phase = phase })
phase-Unmoved s phase =
    variables-Unmoved s s.inst_length s.words_to_read phase λ f. (f.length, f.wanted)

begin-Unmoved : (s : PilotDecodeState) → Unmoved s (begin_instruction s)
unfolding begin_instruction
begin-Unmoved s =
    let s1 =
      if at_dispatch_wait s.decoding_phase && not (semaph s)
      then record s { decoding_phase = decoder_half1_ready }
      else s in
    Unmoved-trans s s1 _
      (choice-Unmoved (at_dispatch_wait s.decoding_phase && not (semaph s)) s _ s
        (phase-Unmoved s decoder_half1_ready) (Unmoved-refl s))
      (choice-Unmoved (at_ready s1.decoding_phase) s1 _ s1
        (variables-Unmoved s1 0 s1.words_to_read decoder_half1_read_inst_word
          λ f. (omega arith, f.wanted))
        (Unmoved-refl s1))

-- The hand-over raises the semaphore.
offered-Unmoved : (s : PilotDecodeState) → Unmoved s (record s { sys = raise_semaph s.sys })
offered-Unmoved s = record {
  rest = refl;
  latch = λ e. e;
  core = refl;
  hram = refl;
  fits = λ f. record {
    machine = record {
      regs = f.machine.regs;
      wf = f.machine.wf;
      pgc = f.machine.pgc;
      repi = f.machine.repi;
      repr = f.machine.repr;
      addr_reg = f.machine.addr_reg;
      data_reg_in = f.machine.data_reg_in;
      data_reg_out = f.machine.data_reg_out;
      wait = f.machine.wait;
      branch_k = f.machine.branch_k;
      branch_addr = f.machine.branch_addr;
      hram = f.machine.hram;
    };
    inst = f.inst;
    pgc = f.pgc;
    length = f.length;
    wanted = f.wanted;
    count = f.count;
  };
}

dispatch-Unmoved : (s : PilotDecodeState) → Unmoved s (dispatch_decoded s)
unfolding dispatch_decoded
dispatch-Unmoved s =
    let s1 = record s { work_regs = record s.work_regs { inst_pgc = s.pgc } } in
    let s2 = record s1 { sys = raise_semaph s1.sys } in
    choice-Unmoved (at_dispatch s.decoding_phase) s _ s
      (Unmoved-trans s s1 _
        (work_regs-Unmoved s s1.work_regs
          (λ f. record {
            words = f.inst.words;
            inst_pgc = f.pgc;
            over = f.inst.over;
            before = f.inst.before;
            after = f.inst.after;
            mask = f.inst.mask;
            increment = f.inst.increment;
            second = f.inst.second;
          })
          refl (λ e. e))
        (Unmoved-trans s1 s2 _ (offered-Unmoved s1) (phase-Unmoved s2 decoder_half1_dispatch_wait)))
      (Unmoved-refl s)

module _ (ext : DecodeExterns) (leaves : LeavesMachine ext) where
  opcode-Unmoved : (s : PilotDecodeState) → Ensures (Unmoved s) (read_inst_word ext s)
  unfolding read_inst_word
  opcode-Unmoved s =
      Ensures-bind (λ (r : PilotDecodeState × Bool). Unmoved s r.0) (Unmoved s)
        (ext.try_read_word s) _ (leaves.try_read s)
        λ r h. from-Unmoved s r.0 _ h (
          branch-Unmoved r.1 r.0 _ _
            (from-Unmoved r.0 _ _
              (variables-Unmoved r.0 (u8 (r.0.inst_length + 1)) r.0.words_to_read r.0.decoding_phase
                λ f. (omega arith, f.wanted))
              (then-Unmoved _ _
                (λ t. ok (record t { decoding_phase = decoder_half2_read_operands }))
                (decode_inst-Unmoved ext leaves _)
                λ t. phase-Unmoved t decoder_half2_read_operands))
            (Unmoved-refl r.0))

  pub half1-Unmoved : (s : PilotDecodeState) → Ensures (Unmoved s) (pilot_decode_half1 ext s)
  unfolding pilot_decode_half1
  half1-Unmoved s =
      let s1 = begin_instruction s in
      from-Unmoved s s1 _ (begin-Unmoved s) (
        branch-Unmoved (at_read_inst_word s1.decoding_phase) s1 _ _ (opcode-Unmoved s1)
          (Unmoved-refl s1))

  operand-Unmoved : (s : PilotDecodeState) → Ensures (Unmoved s) (read_operand ext s)
  unfolding read_operand
  operand-Unmoved s =
      branch-Unmoved (ltb 0 s.words_to_read) s _ _
        (Ensures-bind (λ (r : PilotDecodeState × Bool). Unmoved s r.0) (Unmoved s)
          (ext.try_read_word s) _ (leaves.try_read s)
          λ r h. Unmoved-trans s r.0 _ h (
            choice-Unmoved r.1 r.0 _ r.0
              (variables-Unmoved r.0 r.0.inst_length (u8 (r.0.words_to_read + 255))
                r.0.decoding_phase λ f. (f.length, omega arith))
              (Unmoved-refl r.0)))
        (Unmoved-refl s)

  operands-Unmoved : (s : PilotDecodeState) → Ensures (Unmoved s) (read_operands ext s)
  unfolding read_operands
  operands-Unmoved s = then-Unmoved s _ _ (operand-Unmoved s) λ t.
      choice-Unmoved (t.words_to_read == 0) t _ t (phase-Unmoved t decoder_half2_dispatch)
        (Unmoved-refl t)

  pub half2-Unmoved : (s : PilotDecodeState) → Ensures (Unmoved s) (pilot_decode_half2 ext s)
  unfolding pilot_decode_half2
  half2-Unmoved s =
      then-Unmoved s _ _
        (branch-Unmoved (at_read_operands s.decoding_phase) s _ _ (operands-Unmoved s)
          (Unmoved-refl s))
        λ t. dispatch-Unmoved t
