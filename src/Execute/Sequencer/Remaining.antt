-- ===== src/Execute/Sequencer/Remaining.antt =====
-- pilot-cpu/cpu_execute.c: the measure of the sequencer's state, in advances.
use hexheld_emu.Execute.{
  PilotExecuteState, SequencerPhase, exec_seq_core_op_executed, exec_seq_final_steps,
  exec_seq_override_op, exec_seq_run_after, exec_seq_run_before, exec_seq_wait_next_ins,
}
use hexheld_emu.Mucode.Chain.{entry_count, successor}
use hexheld_emu.Prelude.{Bool, arith, false, not, refl, suc, sym, true, ℕ, ◌+◌, ◌↔◌, ◌∙◌, ◌≡◌}
use hexheld_emu.Types.{MucodeEntryIdx, is_mu_none, mu_none}

-- The advances after which the sequencer waits again.
abbrev pub remaining_at : SequencerPhase → MucodeEntryIdx → MucodeEntryIdx → ℕ
remaining_at exec_seq_override_op entry after = suc (entry_count entry)
remaining_at exec_seq_run_before entry after = suc (entry_count after) + entry_count entry
remaining_at exec_seq_core_op_executed entry after = suc (entry_count after)
remaining_at exec_seq_run_after entry after = suc (entry_count entry)
remaining_at exec_seq_final_steps entry after = 1
remaining_at _ entry after = 0

abbrev pub remaining : PilotExecuteState → ℕ
remaining s =
    remaining_at s.sequencer_phase s.mucode_control.entry_idx s.decoded_inst.run_after.entry_idx

-- The phases in which an advance ends; those that run entries have one to run.
abbrev pub rests_at : SequencerPhase → MucodeEntryIdx → Bool
rests_at exec_seq_override_op entry = not (is_mu_none entry)
rests_at exec_seq_run_before entry = not (is_mu_none entry)
rests_at exec_seq_run_after entry = not (is_mu_none entry)
rests_at exec_seq_core_op_executed entry = true
rests_at exec_seq_final_steps entry = true
rests_at exec_seq_wait_next_ins entry = true
rests_at _ entry = false

-- The sequencer is between two advances, a new instruction is offered or not, and `n` advances remain.
pub record Remains (offer : Bool) (n : ℕ) (s : PilotExecuteState) : Type 0 where
  pub rests : rests_at s.sequencer_phase s.mucode_control.entry_idx ≡ true
  pub offered : s.sys.interconnects.decoded_inst_semaph ≡ offer
  pub left : remaining s ≡ n

pub successor_count :
    (idx : MucodeEntryIdx)
    → is_mu_none idx ≡ false
    → entry_count idx ≡ suc (entry_count (successor idx))
successor_count mu_none h = cc
successor_count _ h = refl

pub none_count : (idx : MucodeEntryIdx) → is_mu_none idx ≡ true → entry_count idx ≡ 0
none_count mu_none h = refl
none_count _ h = cc

-- The sequencer waits exactly when no advances remain.
waits_at :
    (phase : SequencerPhase) (entry after : MucodeEntryIdx)
    → rests_at phase entry ≡ true
    → (phase ≡ exec_seq_wait_next_ins) ↔ (remaining_at phase entry after ≡ 0)
waits_at exec_seq_wait_next_ins entry after h = (λ e. refl, λ e. refl)
waits_at _ entry after h = (λ e. absurd (ground (arith, e)), λ e. absurd (ground (arith, e, h)))

pub Remains-waits :
    (n : ℕ) (s : PilotExecuteState)
    → Remains false n s
    → (s.sequencer_phase ≡ exec_seq_wait_next_ins) ↔ (n ≡ 0)
Remains-waits n s h =
    let (waiting, ended) =
      waits_at s.sequencer_phase s.mucode_control.entry_idx s.decoded_inst.run_after.entry_idx
        h.rests in
    (λ e. sym h.left ∙ waiting e, λ e. ended (h.left ∙ e))
