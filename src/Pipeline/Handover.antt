-- ===== src/Pipeline/Handover.antt =====
-- The handover of an instruction: it is offered until it is taken, and what is taken is what was offered.
use hexheld_emu.Decode.{DecodeExterns, PilotDecodeState}
use hexheld_emu.Decode.Stage.{semaph}
use hexheld_emu.Decode.Stage.Handover.{IsHanded, decode_halves-IsHanded}
use hexheld_emu.Execute.{
  ExecuteExterns, PilotExecuteState, SequencerPhase, exec_seq_core_op, exec_seq_final_steps,
}
use hexheld_emu.Execute.Sequencer.{
  after_core_op, at_override_op, at_run_after, at_run_before, core_op, eval_control, final_steps,
  go_to, lower_semaph, next_instruction, pilot_execute_sequencer_advance,
  pilot_execute_sequencer_mucode_run, run_entry,
}
use hexheld_emu.Execute.Stuck.{SilentDecode}
use hexheld_emu.Execute.Widths.{OnlyReports, Sound}
use hexheld_emu.Execute.Widths.Half1.{half1-Sound}
use hexheld_emu.Execute.Widths.Half2.{half2-Sound}
use hexheld_emu.Execute.Widths.Run.{tick-Sound}
use hexheld_emu.Mucode.Chain.{decode_mucode_entry-silent}
use hexheld_emu.Pipeline.{
  PipeReach, PipeStep, Pipeline, after_decode, after_execute, decode_half1, decode_half2,
  execute_half1, execute_half2, memory_tick, no_step, one_more, sequence,
}
use hexheld_emu.Prelude.{
  Bool, Bool-cases, Ensures, Ensures-bind, Ensures-ok, ap, arith, false, inl, inr, not, ok, refl,
  sym, true, ◌∙◌, ◌≡◌, ◌⊎◌,
}
use hexheld_emu.Types.{InstDecodedFlags, MucodeEntry}

-- The decoder offers `w`, and both stages see the semaphore raised.
pub record IsOffered (w : InstDecodedFlags) (p : Pipeline) : Type 0 where
  pub handed : IsHanded p.decode
  pub inst : p.decode.work_regs ≡ w
  pub seen : p.execute.sys.interconnects.decoded_inst_semaph ≡ true

-- The sequencer has `w`, and both stages see the semaphore lowered.
pub record IsTaken (w : InstDecodedFlags) (p : Pipeline) : Type 0 where
  pub inst : p.execute.decoded_inst ≡ w
  pub lowered : p.execute.sys.interconnects.decoded_inst_semaph ≡ false
  pub seen : semaph p.decode ≡ false

-- What running microcode keeps.
abbrev Keeps : PilotExecuteState → PilotExecuteState → Type 0
Keeps s t = (t.sys ≡ s.sys) × (t.decoded_inst ≡ s.decoded_inst)

-- What the first blocks do with an instruction that is offered: nothing, or take it.
abbrev MayTake : InstDecodedFlags → PilotExecuteState → PilotExecuteState → Type 0
MayTake w s t =
    (t.sys.interconnects ≡ s.sys.interconnects)
    ⊎ ((t.decoded_inst ≡ w) × (t.sys ≡ lower_semaph s.sys))

MayTake-first :
    (w : InstDecodedFlags) (s : PilotExecuteState)
    → s.sys.interconnects.decoded_inst_semaph ≡ true
    → Ensures (MayTake w s) (next_instruction (λ addr. ok w) (final_steps (after_core_op s)))
unfolding next_instruction final_steps after_core_op
MayTake-first w s h = ground arith

MayTake-Keeps :
    (w : InstDecodedFlags) (s t u : PilotExecuteState) → MayTake w s t → Keeps t u → MayTake w s u
MayTake-Keeps w s t u (inl same) k = inl (ap (λ m. m.interconnects) k.0 ∙ same)
MayTake-Keeps w s t u (inr took) k = inr (k.1 ∙ took.0, k.0 ∙ took.1)

Keeps-eval : (s : PilotExecuteState) → Keeps s (eval_control s)
unfolding eval_control
Keeps-eval s = ground arith

Keeps-core : (s : PilotExecuteState) → Keeps s (core_op s)
unfolding core_op
Keeps-core s = ground arith

module _ (eext : ExecuteExterns) (silent : SilentDecode eext) (junk : MucodeEntry) where
  Keeps-run :
      (s : PilotExecuteState)
      → Ensures (λ r. Keeps s r.0) (pilot_execute_sequencer_mucode_run eext junk s)
  unfolding pilot_execute_sequencer_mucode_run
  Keeps-run s =
      rw (decode_mucode_entry-silent eext.decode_unreachable junk s.mucode_control s (silent s)).1
        (refl, refl)

  -- One of the three blocks that run microcode, after what may have been taken.
  MayTake-entry :
      (w : InstDecodedFlags) (at_phase : SequencerPhase → Bool) (after : SequencerPhase)
      (s t : PilotExecuteState)
      → MayTake w s t
      → Ensures (MayTake w s) (run_entry eext junk at_phase after t)
  unfolding run_entry
  MayTake-entry w at_phase after s t h = elim (Bool-cases (at_phase t.sequencer_phase)) [
    | inl e ↦ rw e (
        Ensures-bind (λ r. Keeps t r.0) (MayTake w s)
          (pilot_execute_sequencer_mucode_run eext junk t) _ (Keeps-run t)
          λ r k. elim (Bool-cases (not r.1)) [
            | inl last ↦ rw last (MayTake-Keeps w s t (go_to after r.0) h k)
            | inr more ↦ rw more (MayTake-Keeps w s t r.0 h k)
          ])
    | inr e ↦ rw e h
  ]

  MayTake-advance :
      (w : InstDecodedFlags) (s : PilotExecuteState)
      → s.sys.interconnects.decoded_inst_semaph ≡ true
      → Ensures (MayTake w s) (pilot_execute_sequencer_advance eext junk (λ addr. ok w) s)
  unfolding pilot_execute_sequencer_advance
  MayTake-advance w s h =
      Ensures-bind (MayTake w s) (MayTake w s)
        (next_instruction (λ addr. ok w) (final_steps (after_core_op s))) _ (MayTake-first w s h)
        λ s1 h1.
          Ensures-bind (MayTake w s) (MayTake w s)
            (run_entry eext junk at_override_op exec_seq_final_steps (eval_control s1)) _
            (MayTake-entry w at_override_op exec_seq_final_steps s (eval_control s1)
              (MayTake-Keeps w s s1 (eval_control s1) h1 (Keeps-eval s1)))
            λ s2 h2.
              Ensures-bind (MayTake w s) (MayTake w s)
                (run_entry eext junk at_run_before exec_seq_core_op s2) _
                (MayTake-entry w at_run_before exec_seq_core_op s s2 h2)
                λ s3 h3.
                  MayTake-entry w at_run_after exec_seq_final_steps s (core_op s3)
                    (MayTake-Keeps w s s3 (core_op s3) h3 (Keeps-core s3))

module _ (dext : DecodeExterns) (eext : ExecuteExterns) (reports : OnlyReports eext)
    (w : InstDecodedFlags) where
  abbrev Next : Pipeline → Type 0
  Next p = IsOffered w p ⊎ IsTaken w p

  after-MayTake :
      (p : Pipeline) (e : PilotExecuteState)
      → IsOffered w p
      → MayTake w p.execute e
      → Next (after_execute p e)
  after-MayTake p e h (inl same) =
      inl (record { handed = (h.handed.0, rw same h.seen); inst = h.inst; seen = rw same h.seen })
  after-MayTake p e h (inr took) =
      inr (record { inst = took.0; lowered = rw took.1 refl; seen = rw took.1 refl })

  ok-inj : {d c : PilotDecodeState} → ok d ≡ ok c → d ≡ c
  ok-inj h = cc

  same_decode :
      (p : Pipeline) (d : PilotDecodeState) → IsOffered w p → d ≡ p.decode → Next (after_decode p d)
  same_decode p d h same =
      rw same (inl (record { handed = h.handed; inst = h.inst; seen = h.handed.1 }))

  -- A call that leaves the lines between the stages alone.
  kept-IsOffered :
      (p : Pipeline) (e : PilotExecuteState)
      → IsOffered w p
      → Sound p.execute e
      → Next (after_execute p e)
  kept-IsOffered p e h k = after-MayTake p e h (inl (ap (λ k. k.lines) k.0))

  step-IsOffered : {p q : Pipeline} → PipeStep dext eext p q → IsOffered w p → Next q
  step-IsOffered {p = p} (decode_half1 {d} e) h =
      same_decode p d h (ok-inj (sym e ∙ (decode_halves-IsHanded dext p.decode h.handed).0))
  step-IsOffered {p = p} (decode_half2 {d} e) h =
      same_decode p d h (ok-inj (sym e ∙ (decode_halves-IsHanded dext p.decode h.handed).1))
  step-IsOffered {p = p} (sequence {e} junk eq) h = after-MayTake p e h (
      Ensures-ok (MayTake w p.execute) _ e
        (rw h.inst (MayTake-advance eext reports.decode_unreachable junk w p.execute h.seen)) eq)
  step-IsOffered {p = p} (execute_half1 {e} eq) h =
      kept-IsOffered p e h
        (Ensures-ok (Sound p.execute) _ e (half1-Sound eext reports p.execute) eq)
  step-IsOffered {p = p} (execute_half2 {e} junk eq) h =
      kept-IsOffered p e h
        (Ensures-ok (Sound p.execute) _ e (half2-Sound eext reports junk p.execute) eq)
  step-IsOffered {p = p} (memory_tick {sys} eq) h =
      kept-IsOffered p (record p.execute { sys = sys }) h (tick-Sound p.execute sys eq)

  -- Once the decode stage offers an instruction, after any sequence of half cycles of both
  -- stages, of advances of the sequencer and of ticks of the memory controller: either it is
  -- still offered, unchanged, or there was a moment at which the sequencer had taken it,
  -- unchanged, and the semaphore was lowered for both stages. The external reports of the execute
  -- stage are assumed to change nothing.
  pub handover :
      {p q : Pipeline}
      → IsOffered w p
      → PipeReach dext eext p q
      → IsOffered w q
        ⊎ ((r : Pipeline) × PipeReach dext eext p r × IsTaken w r × PipeReach dext eext r q)
  handover h no_step = inl h
  handover h (one_more {q} {r} reach step) = elim (handover h reach) [
    | inl offered ↦ elim (step-IsOffered step offered) [
      | inl still ↦ inl still
      | inr taken ↦ inr (r, one_more reach step, taken, no_step)
    ]
    | inr (m, before, taken, later) ↦ inr (m, before, taken, one_more later step)
  ]
