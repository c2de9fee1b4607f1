-- ===== src/Execute/Stuck.antt =====
-- pilot-cpu/cpu_execute.c: the end of a cycle. The half cycles, the sequencer and ticks of the memory
-- controller, in any order.
use mathlib.Core.Path.{subst}
use hexheld_emu.Execute.{
  ExecuteExterns, PilotExecuteState, SequencerPhase, exec_advance_sequencer, exec_seq_core_op,
  exec_seq_final_steps,
}
use hexheld_emu.Execute.Half1.{pilot_execute_half1}
use hexheld_emu.Execute.Half2.{pilot_execute_half2}
use hexheld_emu.Execute.Sequencer.{
  after_core_op, at_override_op, at_run_after, at_run_before, core_op, eval_control, final_steps,
  next_instruction, pilot_execute_sequencer_advance, pilot_execute_sequencer_mucode_run, run_entry,
}
use hexheld_emu.Mucode.Chain.{decode_mucode_entry-silent}
use hexheld_emu.Prelude.{
  Bool, Bool-cases, Ensures, Ensures-bind, Ensures-ok, Outcome, arith, inl, inr, ok, refl, sym, ℕ,
  ◌∙◌, ◌≡◌,
}
use hexheld_emu.System.{PilotSystem}
use hexheld_emu.Types.{InstDecodedFlags, MucodeEntry}

-- `decode_unreachable_` returns the state as it is.
abbrev pub SilentDecode : ExecuteExterns → Type 0
SilentDecode ext = (s : PilotExecuteState) → ext.decode_unreachable s ≡ ok s

-- One call.
pub data ExecStep (ext : ExecuteExterns) (inst_at : ℕ → Outcome InstDecodedFlags)
    : PilotExecuteState → PilotExecuteState → Type 0 where
  half1 : {s t : PilotExecuteState} → pilot_execute_half1 ext s ≡ ok t → ExecStep ext inst_at s t
  half2 :
      {s t : PilotExecuteState} (junk : ℕ)
      → pilot_execute_half2 ext junk s ≡ ok t
      → ExecStep ext inst_at s t
  advance :
      {s t : PilotExecuteState} (junk : MucodeEntry)
      → pilot_execute_sequencer_advance ext junk inst_at s ≡ ok t
      → ExecStep ext inst_at s t
  other :
      (s : PilotExecuteState) (sys : PilotSystem) → ExecStep ext inst_at s (record s { sys = sys })

pub data ExecReach (ext : ExecuteExterns) (inst_at : ℕ → Outcome InstDecodedFlags)
    (s : PilotExecuteState) : PilotExecuteState → Type 0 where
  no_call : ExecReach ext inst_at s s
  call_after :
      {t u : PilotExecuteState}
      → ExecReach ext inst_at s t
      → ExecStep ext inst_at t u
      → ExecReach ext inst_at s u

-- At the end of a cycle.
abbrev pub IsDone : PilotExecuteState → Type 0
IsDone s = s.execution_phase ≡ exec_advance_sequencer

ok-inj : {s t : PilotExecuteState} → ok s ≡ ok t → s ≡ t
ok-inj h = cc

-- The blocks of the advance that run no microcode.
eval-IsDone : (s : PilotExecuteState) → IsDone s → IsDone (eval_control s)
unfolding eval_control
eval-IsDone s h = ground arith

core-IsDone : (s : PilotExecuteState) → IsDone s → IsDone (core_op s)
unfolding core_op
core-IsDone s h = ground arith

first-IsDone :
    (inst_at : ℕ → Outcome InstDecodedFlags) (s : PilotExecuteState)
    → IsDone s
    → Ensures IsDone (next_instruction inst_at (final_steps (after_core_op s)))
unfolding next_instruction final_steps after_core_op
first-IsDone inst_at s h = ground arith

module _ (ext : ExecuteExterns) (silent : SilentDecode ext) where
  done-half1 : (s : PilotExecuteState) → IsDone s → pilot_execute_half1 ext s ≡ ok s
  unfolding pilot_execute_half1
  done-half1 s h = rw h refl

  done-half2 : (junk : ℕ) (s : PilotExecuteState) → IsDone s → pilot_execute_half2 ext junk s ≡ ok s
  unfolding pilot_execute_half2
  done-half2 junk s h = rw h refl

  module _ (junk : MucodeEntry) where
    run-IsDone :
        (s : PilotExecuteState)
        → IsDone s
        → Ensures (λ r. IsDone r.0) (pilot_execute_sequencer_mucode_run ext junk s)
    unfolding pilot_execute_sequencer_mucode_run
    run-IsDone s h =
        rw (decode_mucode_entry-silent ext.decode_unreachable junk s.mucode_control s (silent s)).1
          h

    entry-IsDone :
        (at_phase : SequencerPhase → Bool) (after : SequencerPhase) (s : PilotExecuteState)
        → IsDone s
        → Ensures IsDone (run_entry ext junk at_phase after s)
    unfolding run_entry
    entry-IsDone at_phase after s h = elim (Bool-cases (at_phase s.sequencer_phase)) [
      | inl e ↦ rw e (
          Ensures-bind (λ r. IsDone r.0) IsDone (pilot_execute_sequencer_mucode_run ext junk s) _
            (run-IsDone s h) λ r d. ground arith)
      | inr e ↦ rw e h
    ]

    advance-IsDone :
        (inst_at : ℕ → Outcome InstDecodedFlags) (s : PilotExecuteState)
        → IsDone s
        → Ensures IsDone (pilot_execute_sequencer_advance ext junk inst_at s)
    unfolding pilot_execute_sequencer_advance
    advance-IsDone inst_at s h =
        Ensures-bind IsDone IsDone (next_instruction inst_at (final_steps (after_core_op s))) _
          (first-IsDone inst_at s h)
          λ s1 h1.
            Ensures-bind IsDone IsDone
              (run_entry ext junk at_override_op exec_seq_final_steps (eval_control s1)) _
              (entry-IsDone at_override_op exec_seq_final_steps (eval_control s1)
                (eval-IsDone s1 h1))
              λ s2 h2.
                Ensures-bind IsDone IsDone (run_entry ext junk at_run_before exec_seq_core_op s2) _
                  (entry-IsDone at_run_before exec_seq_core_op s2 h2)
                  λ s3 h3.
                    entry-IsDone at_run_after exec_seq_final_steps (core_op s3) (core-IsDone s3 h3)

  -- One call at the end of a cycle.
  step-IsDone :
      {inst_at : ℕ → Outcome InstDecodedFlags} {s t : PilotExecuteState}
      → ExecStep ext inst_at s t
      → IsDone s
      → IsDone t
  step-IsDone (half1 {s} {t} e) h = subst IsDone (ok-inj (sym (done-half1 s h) ∙ e)) h
  step-IsDone (half2 {s} {t} junk e) h = subst IsDone (ok-inj (sym (done-half2 junk s h) ∙ e)) h
  step-IsDone {inst_at = inst_at} (advance {s} {t} junk e) h =
      Ensures-ok IsDone _ t (advance-IsDone junk inst_at s h) e
  step-IsDone (other s sys) h = h

  reach-IsDone :
      {inst_at : ℕ → Outcome InstDecodedFlags} {s t : PilotExecuteState}
      → IsDone s
      → ExecReach ext inst_at s t
      → IsDone t
  reach-IsDone h no_call = h
  reach-IsDone h (call_after r st) = step-IsDone st (reach-IsDone h r)

  -- Once a cycle has ended, whatever calls of the half cycles, of the sequencer and on the machine
  -- follow: neither half cycle does anything again. A call of `decode_unreachable_` is assumed to
  -- change nothing.
  pub done_forever :
      {inst_at : ℕ → Outcome InstDecodedFlags} {s t : PilotExecuteState}
      → IsDone s
      → ExecReach ext inst_at s t
      → (pilot_execute_half1 ext t ≡ ok t) × ((junk : ℕ) → pilot_execute_half2 ext junk t ≡ ok t)
  done_forever {t = t} h r =
      (done-half1 t (reach-IsDone h r), λ junk. done-half2 junk t (reach-IsDone h r))
