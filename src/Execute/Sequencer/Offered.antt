-- ===== src/Execute/Sequencer/Offered.antt =====
-- pilot-cpu/cpu_execute.c: how many advances pass before an instruction that is offered is taken.
use hexheld_emu.Execute.{
  ExecuteExterns, PilotExecuteState, SequencerPhase, exec_seq_core_op_executed,
  exec_seq_final_steps, exec_seq_override_op, exec_seq_run_after, exec_seq_run_before,
  exec_seq_wait_next_ins,
}
use hexheld_emu.Execute.Sequencer.{pilot_execute_sequencer_advance}
use hexheld_emu.Execute.Sequencer.Finishing.{
  advance_times, after-Remains, before-Remains, executed_more, override-Remains,
}
use hexheld_emu.Execute.Sequencer.Remaining.{Remains, none_count, successor_count}
use hexheld_emu.Execute.Sequencer.Taking.{IsFree, Took, advance-taken}
use hexheld_emu.Prelude.{
  Bool-cases, Outcome, Returns, Returns-bind, Returns-weaken, arith, false, inl, inr, ok, refl, suc,
  true, zero, ℕ, ◌+◌, ◌-◌, ◌∙◌, ◌≡◌, ◌≤◌, ◌⊎◌,
}
use hexheld_emu.Types.{InstDecodedFlags, MucodeEntry, is_mu_none}

-- At least two advances remain: the next one runs microcode, or the operation.
module _ (inst_at : ℕ → Outcome InstDecodedFlags) (ext : ExecuteExterns) (junk : MucodeEntry) where
  busy-Remains :
      (n : ℕ) (phase : SequencerPhase) (s : PilotExecuteState)
      → s.sequencer_phase ≡ phase
      → Remains true (suc (suc n)) s
      → Returns (Remains true (suc n)) (pilot_execute_sequencer_advance ext junk inst_at s)
  busy-Remains n exec_seq_override_op s p h = override-Remains inst_at ext junk (suc n) s p h
  busy-Remains n exec_seq_run_before s p h = before-Remains inst_at ext junk (suc n) s p h
  busy-Remains n exec_seq_run_after s p h = after-Remains inst_at ext junk (suc n) s p h
  busy-Remains n exec_seq_core_op_executed s p h =
      elim (Bool-cases (is_mu_none s.decoded_inst.run_after.entry_idx)) [
        | inl e ↦ absurd (ground (arith, h.left, none_count s.decoded_inst.run_after.entry_idx e))
        | inr e ↦ executed_more inst_at ext junk (suc n) s p e h
      ]
  busy-Remains n _ s p h = absurd (ground (arith, h.left))

-- At most one advance remains.
IsFree-at :
    (n : ℕ) (phase : SequencerPhase) (s : PilotExecuteState)
    → s.sequencer_phase ≡ phase
    → Remains true n s
    → n ≤ 1
    → IsFree s
IsFree-at n exec_seq_wait_next_ins s p h small = inl p
IsFree-at n exec_seq_final_steps s p h small = inr (inl p)
IsFree-at n exec_seq_core_op_executed s p h small =
    elim (Bool-cases (is_mu_none s.decoded_inst.run_after.entry_idx)) [
      | inl e ↦ inr (inr (p, e))
      | inr e ↦
          absurd (ground (arith, h.left, successor_count s.decoded_inst.run_after.entry_idx e))
    ]
IsFree-at n exec_seq_override_op s p h small =
    absurd (ground (arith, h.left, h.rests, successor_count s.mucode_control.entry_idx))
IsFree-at n exec_seq_run_before s p h small =
    absurd (ground (arith, h.left, h.rests, successor_count s.mucode_control.entry_idx))
IsFree-at n exec_seq_run_after s p h small =
    absurd (ground (arith, h.left, h.rests, successor_count s.mucode_control.entry_idx))
IsFree-at n _ s p h small = absurd (ground (arith, h.rests))

-- The instruction at every address is `inst`: the pointer is not moved while it is offered.
module _ (inst : InstDecodedFlags) (ext : ExecuteExterns) (junk : MucodeEntry) where
  abbrev at_any : ℕ → Outcome InstDecodedFlags
  at_any addr = ok inst

  -- The instruction was taken.
  abbrev pub HasTaken : PilotExecuteState → Type 0
  HasTaken t = (t.decoded_inst ≡ inst) × (t.sys.interconnects.decoded_inst_semaph ≡ false)

  free-HasTaken :
      (n : ℕ) (s : PilotExecuteState)
      → Remains true n s
      → n ≤ 1
      → Returns HasTaken (pilot_execute_sequencer_advance ext junk at_any s)
  free-HasTaken n s h small =
      Returns-weaken
        (Took at_any s inst (IsFree-at n s.sequencer_phase s refl h small) h.offered refl ext junk)
        HasTaken (pilot_execute_sequencer_advance ext junk at_any s)
        (advance-taken at_any s inst (IsFree-at n s.sequencer_phase s refl h small) h.offered refl
          ext junk)
        λ t r. (r.2, rw r.3 refl)

  once :
      (s : PilotExecuteState)
      → Returns HasTaken (pilot_execute_sequencer_advance ext junk at_any s)
      → Returns HasTaken (advance_times at_any ext junk 1 s)
  unfolding advance_times
  once s h =
      Returns-bind HasTaken HasTaken (pilot_execute_sequencer_advance ext junk at_any s)
        (λ t. advance_times at_any ext junk 0 t) h λ t r. r

  -- Before the last of the advances the instruction is still offered.
  times-busy :
      (k m n : ℕ) (s : PilotExecuteState)
      → Remains true n s
      → n ≡ suc (k + m)
      → Returns (Remains true (suc m)) (advance_times at_any ext junk k s)
  unfolding advance_times
  times-busy zero m n s h e = record {
    rests = h.rests;
    offered = h.offered;
    left = h.left ∙ e ∙ omega arith;
  }
  times-busy (suc k) m (suc (suc n)) s h e =
      Returns-bind (Remains true (suc n)) (Remains true (suc m))
        (pilot_execute_sequencer_advance ext junk at_any s) (λ t. advance_times at_any ext junk k t)
        (busy-Remains at_any ext junk n s.sequencer_phase s refl h)
        λ t r. times-busy k m (suc n) t r (omega (arith, e))
  times-busy (suc k) m (suc zero) s h e = absurd (omega (arith, e))
  times-busy (suc k) m zero s h e = absurd (omega (arith, e))

  taken-last :
      (n : ℕ) (s : PilotExecuteState)
      → (Remains true (suc n) s) ⊎ ((n ≡ 0) × Remains true 0 s)
      → Returns HasTaken (advance_times at_any ext junk (suc n) s)
  unfolding advance_times
  taken-last zero s (inl h) = once s (free-HasTaken 1 s h (omega arith))
  taken-last zero s (inr h) = once s (free-HasTaken 0 s h.1 (omega arith))
  taken-last (suc n) s (inl h) =
      Returns-bind (Remains true (suc n)) HasTaken
        (pilot_execute_sequencer_advance ext junk at_any s)
        (λ t. advance_times at_any ext junk (suc n) t)
        (busy-Remains at_any ext junk n s.sequencer_phase s refl h) λ t r. taken-last n t (inl r)
  taken-last (suc n) s (inr h) = absurd (omega (arith, h.0))

  still_offered :
      (n k : ℕ) (s : PilotExecuteState)
      → (Remains true (suc n) s) ⊎ ((n ≡ 0) × Remains true 0 s)
      → k ≤ n
      → Returns
          (λ t. t.sys.interconnects.decoded_inst_semaph ≡ true)
          (advance_times at_any ext junk k s)
  unfolding advance_times
  still_offered n k s (inl h) le =
      Returns-weaken (Remains true (suc (n - k)))
        (λ t. t.sys.interconnects.decoded_inst_semaph ≡ true) (advance_times at_any ext junk k s)
        (times-busy k (n - k) (suc n) s h (omega (arith, le))) λ t r. r.offered
  still_offered n zero s (inr h) le = h.1.offered
  still_offered n (suc k) s (inr h) le = absurd (omega (arith, h.0, le))

  -- From a state between two advances, with an instruction offered at an address that keeps
  -- referring to it, and `n + 1` advances counted by `remaining`, or none and `n` is 0: after any
  -- `k` advances of the first `n` the instruction is still offered, and the advance after those
  -- `n` takes it; no call goes wrong. So it is taken by exactly that advance.
  pub advance_times-HasTaken :
      (n k : ℕ) (s : PilotExecuteState)
      → (Remains true (suc n) s) ⊎ ((n ≡ 0) × Remains true 0 s)
      → k ≤ n
      → Returns
          (λ t. t.sys.interconnects.decoded_inst_semaph ≡ true)
          (advance_times at_any ext junk k s)
        × Returns HasTaken (advance_times at_any ext junk (suc n) s)
  advance_times-HasTaken n k s h le = (still_offered n k s h le, taken-last n s h)
