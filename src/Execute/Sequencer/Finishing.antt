-- ===== src/Execute/Sequencer/Finishing.antt =====
-- pilot-cpu/cpu_execute.c: how many advances an instruction takes.
use hexheld_emu.Execute.{
  ExecuteExterns, PilotExecuteState, SequencerPhase, exec_seq_core_op, exec_seq_core_op_executed,
  exec_seq_final_steps, exec_seq_override_op, exec_seq_run_after, exec_seq_run_before,
  exec_seq_wait_next_ins,
}
use hexheld_emu.Execute.Sequencer.{
  after_core_op, at_core, at_core_op_executed, at_eval_control, at_final_steps, at_override_op,
  at_run_after, at_run_before, at_wait_next_ins, core_op, eval_control, final_steps,
  next_instruction, pilot_execute_sequencer_advance, run_entry, start_mucode,
}
use hexheld_emu.Execute.Sequencer.Remaining.{Remains, Remains-waits, none_count, successor_count}
use hexheld_emu.Execute.Sequencer.Run.{Ran, last_two, past, run_entry-Ran, run_entry-other}
use hexheld_emu.Mucode.Chain.{entry_count, successor}
use hexheld_emu.Prelude.{
  Bool, Bool-cases, Outcome, Returns, Returns-bind, Returns-weaken, ap, arith, false, inl, inr, ok,
  refl, suc, true, zero, ℕ, ◌+◌, ◌>>=◌, ◌↔◌, ◌∙◌, ◌≡◌, ◌⊎◌,
}
use hexheld_emu.Types.{InstDecodedFlags, MucodeEntry, is_mu_none}

module _ (inst_at : ℕ → Outcome InstDecodedFlags) (ext : ExecuteExterns) (junk : MucodeEntry) where
  abbrev Steps : Bool → ℕ → PilotExecuteState → Type 0
  Steps b n s = Returns (Remains b n) (pilot_execute_sequencer_advance ext junk inst_at s)

  -- The blocks up to the override do nothing while microcode is run.
  skip_first :
      (s : PilotExecuteState)
      → at_core_op_executed s.sequencer_phase ≡ false
      → at_final_steps s.sequencer_phase ≡ false
      → at_wait_next_ins s.sequencer_phase ≡ false
      → at_eval_control s.sequencer_phase ≡ false
      → (next_instruction inst_at (final_steps (after_core_op s)) ≡ ok s) × (eval_control s ≡ s)
  unfolding next_instruction final_steps after_core_op eval_control
  skip_first s a b c d = ground arith

  pub override-Remains :
      {b : Bool} (n : ℕ) (s : PilotExecuteState)
      → s.sequencer_phase ≡ exec_seq_override_op
      → Remains b (suc n) s
      → Steps b n s
  unfolding pilot_execute_sequencer_advance
  override-Remains {b = b} n s p h =
      let e : is_mu_none s.mucode_control.entry_idx ≡ false = ground (arith, h.rests) in
      let skip =
        skip_first s (ap at_core_op_executed p) (ap at_final_steps p) (ap at_wait_next_ins p)
          (ap at_eval_control p) in
      rw skip.0 (
        rw skip.1 (
          Returns-bind (Ran ext junk exec_seq_final_steps s) (Remains b n)
            (run_entry ext junk at_override_op exec_seq_final_steps s) (last_two ext junk)
            (run_entry-Ran ext junk at_override_op exec_seq_final_steps s (ap at_override_op p) e)
            λ t r. rw (past ext junk t (ground arith) (ground arith) (ground arith)) (
              ground (
                arith,
                h.left,
                h.offered,
                successor_count s.mucode_control.entry_idx e,
                none_count (successor s.mucode_control.entry_idx),
              ))))

  -- The core operation after the last entry before it.
  core_then-Remains :
      {b : Bool} (n : ℕ) (s t : PilotExecuteState)
      → s.sequencer_phase ≡ exec_seq_run_before
      → Remains b (suc n) s
      → Ran ext junk exec_seq_core_op s t
      → Returns (Remains b n) (run_entry ext junk at_run_after exec_seq_final_steps (core_op t))
  unfolding core_op run_entry
  core_then-Remains {b = b} n s t p h r =
      let e : is_mu_none s.mucode_control.entry_idx ≡ false = ground (arith, h.rests) in
      ground (
        arith,
        h.left,
        h.offered,
        successor_count s.mucode_control.entry_idx e,
        none_count (successor s.mucode_control.entry_idx),
      )

  pub before-Remains :
      {b : Bool} (n : ℕ) (s : PilotExecuteState)
      → s.sequencer_phase ≡ exec_seq_run_before
      → Remains b (suc n) s
      → Steps b n s
  unfolding pilot_execute_sequencer_advance
  before-Remains {b = b} n s p h =
      let e : is_mu_none s.mucode_control.entry_idx ≡ false = ground (arith, h.rests) in
      let skip =
        skip_first s (ap at_core_op_executed p) (ap at_final_steps p) (ap at_wait_next_ins p)
          (ap at_eval_control p) in
      let rest = λ (s3 : PilotExecuteState).
        run_entry ext junk at_run_after exec_seq_final_steps (core_op s3) in
      rw skip.0 (
        rw skip.1 (
          rw (run_entry-other ext junk at_override_op exec_seq_final_steps s (ap at_override_op p))
            (Returns-bind (Ran ext junk exec_seq_core_op s) (Remains b n)
              (run_entry ext junk at_run_before exec_seq_core_op s) rest
              (run_entry-Ran ext junk at_run_before exec_seq_core_op s (ap at_run_before p) e)
              λ t r. core_then-Remains n s t p h r)))

  -- The blocks from the override on, in a phase that runs the entries after the operation.
  after_blocks :
      {b : Bool} (n : ℕ) (s : PilotExecuteState)
      → s.sequencer_phase ≡ exec_seq_run_after
      → is_mu_none s.mucode_control.entry_idx ≡ false
      → s.sys.interconnects.decoded_inst_semaph ≡ b
      → entry_count s.mucode_control.entry_idx ≡ n
      → Returns
          (Remains b n)
          (run_entry ext junk at_override_op exec_seq_final_steps s >>= last_two ext junk)
  unfolding core_op
  after_blocks {b = b} n s p e offer_is count =
      rw (run_entry-other ext junk at_override_op exec_seq_final_steps s (ap at_override_op p)) (
        rw (run_entry-other ext junk at_run_before exec_seq_core_op s (ap at_run_before p)) (
          rw (ap at_core p) (
            Returns-weaken (Ran ext junk exec_seq_final_steps s) (Remains b n)
              (run_entry ext junk at_run_after exec_seq_final_steps s)
              (run_entry-Ran ext junk at_run_after exec_seq_final_steps s (ap at_run_after p) e)
              λ t r. ground (
                arith,
                successor_count s.mucode_control.entry_idx e,
                none_count (successor s.mucode_control.entry_idx),
              ))))

  pub after-Remains :
      {b : Bool} (n : ℕ) (s : PilotExecuteState)
      → s.sequencer_phase ≡ exec_seq_run_after
      → Remains b (suc n) s
      → Steps b n s
  unfolding pilot_execute_sequencer_advance
  after-Remains {b = b} n s p h =
      let e : is_mu_none s.mucode_control.entry_idx ≡ false = ground (arith, h.rests) in
      let skip =
        skip_first s (ap at_core_op_executed p) (ap at_final_steps p) (ap at_wait_next_ins p)
          (ap at_eval_control p) in
      rw skip.0 (rw skip.1 (after_blocks n s p e h.offered (ground (arith, h.left))))

  -- The first blocks after the operation.
  skip_to_after :
      (s : PilotExecuteState)
      → s.sequencer_phase ≡ exec_seq_core_op_executed
      → is_mu_none s.decoded_inst.run_after.entry_idx ≡ false
      → (next_instruction inst_at (final_steps (after_core_op s))
          ≡ ok (start_mucode exec_seq_run_after s.decoded_inst.run_after s))
        × (eval_control (start_mucode exec_seq_run_after s.decoded_inst.run_after s)
            ≡ start_mucode exec_seq_run_after s.decoded_inst.run_after s)
  unfolding next_instruction final_steps after_core_op eval_control
  skip_to_after s p e = ground arith

  pub executed_more :
      {b : Bool} (n : ℕ) (s : PilotExecuteState)
      → s.sequencer_phase ≡ exec_seq_core_op_executed
      → is_mu_none s.decoded_inst.run_after.entry_idx ≡ false
      → Remains b (suc n) s
      → Steps b n s
  unfolding pilot_execute_sequencer_advance
  executed_more {b = b} n s p e h =
      let skip = skip_to_after s p e in
      rw skip.0 (
        rw skip.1 (
          after_blocks n (start_mucode exec_seq_run_after s.decoded_inst.run_after s) refl e
            h.offered (ground (arith, h.left))))

  -- With nothing left to run, the sequencer waits.
  pub advance-finished :
      (s : PilotExecuteState)
      → (s.sequencer_phase ≡ exec_seq_final_steps)
        ⊎ ((s.sequencer_phase ≡ exec_seq_core_op_executed)
            × (is_mu_none s.decoded_inst.run_after.entry_idx ≡ true))
      → s.sys.interconnects.decoded_inst_semaph ≡ false
      → pilot_execute_sequencer_advance ext junk inst_at s
        ≡ ok (record s { sequencer_phase = exec_seq_wait_next_ins })
  unfolding pilot_execute_sequencer_advance after_core_op final_steps next_instruction eval_control
      run_entry core_op
  advance-finished s p offer_is = ground arith

  finished-Remains :
      (n : ℕ) (s : PilotExecuteState)
      → (s.sequencer_phase ≡ exec_seq_final_steps)
        ⊎ ((s.sequencer_phase ≡ exec_seq_core_op_executed)
            × (is_mu_none s.decoded_inst.run_after.entry_idx ≡ true))
      → Remains false (suc n) s
      → Steps false n s
  finished-Remains n s p h =
      rw (advance-finished s p h.offered)
        (ground (arith, h.left, h.offered, none_count s.decoded_inst.run_after.entry_idx))

  by_phase :
      (n : ℕ) (phase : SequencerPhase) (s : PilotExecuteState)
      → s.sequencer_phase ≡ phase
      → Remains false (suc n) s
      → Steps false n s
  by_phase n exec_seq_override_op s p h = override-Remains n s p h
  by_phase n exec_seq_run_before s p h = before-Remains n s p h
  by_phase n exec_seq_run_after s p h = after-Remains n s p h
  by_phase n exec_seq_final_steps s p h = finished-Remains n s (inl p) h
  by_phase n exec_seq_core_op_executed s p h =
      elim (Bool-cases (is_mu_none s.decoded_inst.run_after.entry_idx)) [
        | inl e ↦ finished-Remains n s (inr (p, e)) h
        | inr e ↦ executed_more n s p e h
      ]
  by_phase n _ s p h = absurd (ground (arith, h.left))

  -- While no new instruction is offered, an advance leaves one advance less to make.
  pub advance-Remains : (n : ℕ) (s : PilotExecuteState) → Remains false (suc n) s → Steps false n s
  advance-Remains n s h = by_phase n s.sequencer_phase s refl h

  unfoldable pub advance_times : ℕ → PilotExecuteState → Outcome PilotExecuteState
  advance_times zero s = ok s
  advance_times (suc n) s = pilot_execute_sequencer_advance ext junk inst_at s >>= advance_times n

  times-Remains :
      (k m n : ℕ) (s : PilotExecuteState)
      → Remains false n s
      → n ≡ k + m
      → Returns (Remains false m) (advance_times k s)
  unfolding advance_times
  times-Remains zero m n s h e = record {
    rests = h.rests;
    offered = h.offered;
    left = h.left ∙ e ∙ omega arith;
  }
  times-Remains (suc k) m zero s h e = absurd (omega (arith, e))
  times-Remains (suc k) m (suc n) s h e =
      Returns-bind (Remains false n) (Remains false m)
        (pilot_execute_sequencer_advance ext junk inst_at s) (λ t. advance_times k t)
        (advance-Remains n s h) λ t r. times-Remains k m n t r (omega (arith, e))

  -- From a state between two advances, with no new instruction offered and `n` advances counted by
  -- `remaining`: after any `k` of them the calls have returned, the other `m` are counted still,
  -- and the sequencer waits for an instruction if and only if `m` is 0. So it waits after exactly
  -- `n` advances.
  pub advance_times-Remains :
      (k m n : ℕ) (s : PilotExecuteState)
      → Remains false n s
      → n ≡ k + m
      → Returns
          (λ t. Remains false m t × ((t.sequencer_phase ≡ exec_seq_wait_next_ins) ↔ (m ≡ 0)))
          (advance_times k s)
  advance_times-Remains k m n s h e =
      Returns-weaken (Remains false m)
        (λ t. Remains false m t × ((t.sequencer_phase ≡ exec_seq_wait_next_ins) ↔ (m ≡ 0)))
        (advance_times k s) (times-Remains k m n s h e) λ t r. (r, Remains-waits m t r)
