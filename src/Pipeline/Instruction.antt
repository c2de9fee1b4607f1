-- ===== src/Pipeline/Instruction.antt =====
-- pilot-cpu/cpu_decode.c and cpu_execute.c: an arithmetic instruction on two 16-bit registers, through
-- the half cycles of both stages and the sequencer between them.
use hexheld_emu.Decode.{DecodeExterns, PilotDecodeState}
use hexheld_emu.Decode.Inst.Arithmetic.{Mnemonic, mnemonic_of}
use hexheld_emu.Decode.Inst.Direct.{direct_of, direct_word}
use hexheld_emu.Decode.Stage.{pilot_decode_half1, pilot_decode_half2}
use hexheld_emu.Decode.Stage.Direct.{
  IsIdle, begun, counted, decoded, half1-decoded, half2-handed, kept_before, kept_override,
  offering_direct, stamped,
}
use hexheld_emu.Execute.{
  ExecuteExterns, PilotExecuteState, exec_advance_sequencer, exec_half1_ready,
  exec_seq_core_op_executed,
}
use hexheld_emu.Execute.Fetch.{step_size}
use hexheld_emu.Execute.Half1.{pilot_execute_half1}
use hexheld_emu.Execute.Half2.{pilot_execute_half2}
use hexheld_emu.Execute.Sequencer.{lower_semaph, pilot_execute_sequencer_advance}
use hexheld_emu.Execute.Sequencer.Taking.{IsFree, advance-at_core}
use hexheld_emu.Pipeline.{Pipeline, after_decode, after_execute}
use hexheld_emu.Pipeline.Arithmetic.{Computed, cycle-result, first_read, given, result_of}
use hexheld_emu.Prelude.{
  Outcome, Returns, ap, false, fault, inr, ok, refl, true, ℕ, ◌%◌, ◌/◌, ◌<◌, ◌>>=◌, ◌^◌, ◌∙◌, ◌≡◌,
}
use hexheld_emu.Types.{MucodeEntry, is_mu_none, mem_no_latch, mu_none}

-- A call in one stage.
abbrev pub call_decode : (PilotDecodeState → Outcome PilotDecodeState) → Pipeline → Outcome Pipeline
call_decode f p = f p.decode >>= λ d. ok (after_decode p d)

abbrev pub call_execute :
    (PilotExecuteState → Outcome PilotExecuteState) → Pipeline → Outcome Pipeline
call_execute f p = f p.execute >>= λ e. ok (after_execute p e)

-- The sequencer follows the pointer to the decoder's `work_regs`.
abbrev pub call_sequencer : ExecuteExterns → MucodeEntry → Pipeline → Outcome Pipeline
call_sequencer ext junk p =
    call_execute (pilot_execute_sequencer_advance ext junk (λ addr. ok p.decode.work_regs)) p

-- The calls that take one instruction through both stages.
abbrev pub one_instruction :
    DecodeExterns → ExecuteExterns → MucodeEntry → ℕ → Pipeline → Outcome Pipeline
one_instruction dext eext entry junk p = do
  p1 ← call_decode (pilot_decode_half1 dext) p
  p2 ← call_decode (pilot_decode_half2 dext) p1
  p3 ← call_sequencer eext entry p2
  p4 ← call_execute (pilot_execute_half1 eext) p3
  call_execute (pilot_execute_half2 eext junk) p4

-- The value is on the latch, the decoder can begin again, and the machine is as it was, with the
-- semaphore low.
abbrev pub Completed : ℕ → Pipeline → Pipeline → Type 0
Completed value p q =
    (q.execute.alu_output_latch % 2 ^ 16 ≡ value)
    × (q.execute.sys ≡ lower_semaph p.decode.sys)
    × (q.decode.sys ≡ lower_semaph p.decode.sys)
    × (q.execute.execution_phase ≡ exec_advance_sequencer)
    × IsIdle q.decode

-- Two calls in the execute stage.
two_calls :
    (f g : PilotExecuteState → Outcome PilotExecuteState) (p : Pipeline)
    (P : PilotExecuteState → Type 0) (Q : Pipeline → Type 0)
    → Returns P (f p.execute >>= g)
    → ((e : PilotExecuteState) → P e → Q (after_execute p e))
    → Returns Q (call_execute f p >>= call_execute g)
two_calls f g p P Q h k = first (f p.execute) h
  where
    second :
        (m : Outcome PilotExecuteState)
        → Returns P m
        → Returns Q (m >>= λ e. ok (after_execute p e))
    second (ok e) h' = k e h'
    second (fault e) h' = elim h' [ ]

    first :
        (m : Outcome PilotExecuteState)
        → Returns P (m >>= g)
        → Returns Q (m >>= (λ e. ok (after_execute p e)) >>= call_execute g)
    first (ok e) h' = second (g e) h'
    first (fault e) h' = elim h' [ ]

module _ (dext : DecodeExterns) (eext : ExecuteExterns) (op a b : ℕ) (ho : op < 15) (ha : a < 8)
    (hb : b < 8) (p : Pipeline) (t : PilotDecodeState) (idle : IsIdle p.decode)
    (delivered : dext.try_read_word (begun p.decode) ≡ ok (t, true)) (same : t.sys ≡ p.decode.sys)
    (word : t.work_regs.imm_words 0 ≡ direct_word op a b) (no_words : t.words_to_read ≡ 0)
    (no_access : t.work_regs.core_op.mem_latch_ctl ≡ mem_no_latch)
    (no_override : t.work_regs.override_op.entry_idx ≡ mu_none)
    (no_before : t.work_regs.run_before.entry_idx ≡ mu_none) (free : IsFree p.execute)
    (ready : p.execute.execution_phase ≡ exec_half1_ready)
    (none_pending : p.execute.mem_access_waiting ≡ false) (entry : MucodeEntry) (junk : ℕ) where
  abbrev m : Mnemonic
  m = mnemonic_of (op % 8)

  abbrev offer : PilotDecodeState
  offer = offering_direct m b (counted t)

  -- The execute stage when it has the instruction.
  abbrev starting : PilotExecuteState
  starting = record p.execute {
    sys = lower_semaph offer.sys;
    sequencer_phase = exec_seq_core_op_executed;
  }

  abbrev started : Pipeline
  started =
      after_execute (record { decode = offer; execute = p.execute })
        (given starting (direct_of m b (stamped (counted t))))

  decoded_once :
      call_decode (pilot_decode_half1 dext) p
      ≡ ok (after_decode p (decoded dext op a b ho ha hb p.decode t idle delivered word))
  decoded_once =
      ap (λ r. r >>= λ d. ok (after_decode p d))
        (half1-decoded dext op a b ho ha hb p.decode t idle delivered word)

  handed_over :
      call_decode
        (pilot_decode_half2 dext)
        (after_decode p (decoded dext op a b ho ha hb p.decode t idle delivered word))
      ≡ ok (after_decode p offer)
  handed_over =
      ap (λ r. r >>= λ d. ok (after_decode p d))
        (half2-handed dext op a b ho ha hb p.decode t idle delivered word no_words)

  sequenced : call_sequencer eext entry (after_decode p offer) ≡ ok started
  sequenced =
      rw
        (advance-at_core (λ addr. ok offer.work_regs) (after_decode p offer).execute offer.work_regs
          free refl refl eext entry
          (ap (λ e. is_mu_none e.entry_idx) (kept_override m b (stamped (counted t)))
            ∙ ap is_mu_none no_override)
          (ap (λ e. is_mu_none e.entry_idx) (kept_before m b (stamped (counted t)))
            ∙ ap is_mu_none no_before))
        refl

  -- An arithmetic instruction (its operation field below 15, so not an immediate form) on the
  -- operand field `a` and the register `b`, both below 8, with 16-bit operands, goes through both
  -- half cycles of the decoder, one advance of the sequencer and both half cycles of the execute
  -- stage. The decoder can begin, and its read delivers the opcode word and leaves the machine
  -- alone, with no more words wanted and no access, no override and no entry before the operation
  -- set. The sequencer waits or has nothing left to run, and the halves are ready with no access
  -- pending. Then all five calls return; the low 16 bits on the latch are what the table
  -- `result_of` gives for the instruction, of `first_read`, of the register `b`, and of the carry,
  -- bit 3 of WF; the decoder can begin again; and the machine, as both stages see it, is as it
  -- was, with the semaphore low: no register receives the result. `first_read` is not the register
  -- `a`: the mask of the macro that adds the field to the base is on the sum, and so nothing, the
  -- size of a step, or a byte register is read, by the field and by whether the microcode buffer
  -- holds an 8-bit size.
  pub one_instruction-result :
      Returns
        (Completed
          (result_of
            (mnemonic_of (op % 8))
            (first_read (record p.execute { sys = p.decode.sys }) a)
            (p.decode.sys.core.regs b)
            (p.decode.sys.core.wf / 2 ^ 3 % 2))
          p)
        (one_instruction dext eext entry junk p)
  unfolding step_size
  one_instruction-result = rw decoded_once (
      rw handed_over (
        rw sequenced (
          two_calls (pilot_execute_half1 eext) (pilot_execute_half2 eext junk) started
            (Computed
              (result_of m (first_read starting a) (t.sys.core.regs b) (t.sys.core.wf / 2 ^ 3 % 2))
              starting)
            (Completed
              (result_of m (first_read (record p.execute { sys = p.decode.sys }) a)
                (p.decode.sys.core.regs b) (p.decode.sys.core.wf / 2 ^ 3 % 2))
              p)
            (cycle-result dext eext op a b ho ha hb (stamped (counted t)) starting word no_access
              ready none_pending junk m)
            (λ e (value, unchanged, phase).
              let same_sys = unchanged ∙ ap lower_semaph same in
              (
                value
                    ∙ ap
                        (λ y.
                          result_of m (first_read (record p.execute { sys = y }) a) (y.core.regs b)
                            (y.core.wf / 2 ^ 3 % 2))
                        same,
                same_sys,
                same_sys,
                phase,
                inr (refl, ap (λ y. y.interconnects.decoded_inst_semaph) unchanged),
              )))))
