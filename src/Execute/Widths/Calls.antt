-- ===== src/Execute/Widths/Calls.antt =====
-- pilot-cpu/cpu_execute.c and memory_bus.c: the widths through the sequencer and through a tick of the
-- memory controller.
use hexheld_emu.Execute.{
  ControlPointer, ExecuteExterns, PilotExecuteState, SequencerPhase, at_core_op, at_mucode_buffer,
  exec_seq_core_op, exec_seq_core_op_executed, exec_seq_eval_control, exec_seq_final_steps,
  exec_seq_override_op, exec_seq_run_after, exec_seq_run_before, exec_seq_wait_next_ins,
}
use hexheld_emu.Execute.Sequencer.{
  after_core_op, at_core, at_core_op_executed, at_eval_control, at_final_steps, at_override_op,
  at_run_after, at_run_before, at_wait_next_ins, core_op, eval_control, final_steps, go_to,
  lower_semaph, next_instruction, pilot_execute_sequencer_advance,
  pilot_execute_sequencer_mucode_run, run_entry, start_mucode,
}
use hexheld_emu.Execute.Stuck.{SilentDecode}
use hexheld_emu.Execute.Widths.{Fits, Sound}
use hexheld_emu.Mucode.Chain.{decode_mucode_entry-kept}
use hexheld_emu.Prelude.{
  Bool, Ensures, Ensures-bind, Ensures-branch, Ensures-chain, Ensures-weaken, Outcome, ap, arith,
  false, if◌then◌else◌, not, refl, true, ℕ, ◌&&◌, ◌<◌, ◌^◌, ◌∙◌, ◌≡◌,
}
use hexheld_emu.System.Widths.{InstFits}
use hexheld_emu.Types.{
  ExecuteControlWord, InstDecodedFlags, MucodeEntry, MucodeEntrySpec, is_mu_none,
}

-- The registers and `hram` are those of `s`, and the widths are kept.
pub record Steady (s t : PilotExecuteState) : Type 0 where
  pub core : t.sys.core ≡ s.sys.core
  pub hram : t.sys.hram ≡ s.sys.hram
  pub fits : Fits s → Fits t

pub Steady-refl : (s : PilotExecuteState) → Steady s s
Steady-refl s = record { core = refl; hram = refl; fits = λ f. f }

pub Steady-trans : (s t u : PilotExecuteState) → Steady s t → Steady t u → Steady s u
Steady-trans s t u h k = record {
  core = k.core ∙ h.core;
  hram = k.hram ∙ h.hram;
  fits = λ f. k.fits (h.fits f);
}

pub Sound-Steady : (s t : PilotExecuteState) → Sound s t → Steady s t
Sound-Steady s t h = record { core = ap (λ k. k.core) h.0; hram = ap (λ k. k.hram) h.0; fits = h.1 }

-- The assignments of the sequencer.
sequenced :
    (s : PilotExecuteState) (phase : SequencerPhase) (pointer : ControlPointer)
    (spec : MucodeEntrySpec) (ctl : ExecuteControlWord)
    → (Fits s → (spec.reg_select < 2 ^ 8) × (ctl.flag_write_mask < 2 ^ 8))
    → Steady s (record s {
      sequencer_phase = phase;
      control = pointer;
      mucode_control = spec;
      mucode_decoded_buffer = ctl;
    })
sequenced s phase pointer spec ctl small = record {
  core = refl;
  hram = refl;
  fits = λ f. record {
    machine = f.machine;
    inst = f.inst;
    entry = (small f).0;
    buffer = (small f).1;
    input0 = f.input0;
    input1 = f.input1;
    output = f.output;
    addr = f.addr;
    word = f.word;
  };
}

taken :
    (s : PilotExecuteState) (inst : InstDecodedFlags)
    → InstFits inst
    → Steady s (record s {
      decoded_inst = inst;
      sys = lower_semaph s.sys;
      sequencer_phase = exec_seq_eval_control;
    })
taken s inst h = record {
  core = refl;
  hram = refl;
  fits = λ f. record {
    machine = record {
      regs = f.machine.regs;
      wf = f.machine.wf;
      pgc = f.machine.pgc;
      repi = f.machine.repi;
      repr = f.machine.repr;
      addr_reg = f.machine.addr_reg;
      data_reg_in = f.machine.data_reg_in;
      data_reg_out = f.machine.data_reg_out;
      wait = f.machine.wait;
      branch_k = f.machine.branch_k;
      branch_addr = f.machine.branch_addr;
      hram = f.machine.hram;
    };
    inst = h;
    entry = f.entry;
    buffer = f.buffer;
    input0 = f.input0;
    input1 = f.input1;
    output = f.output;
    addr = f.addr;
    word = f.word;
  };
}

choice-Steady :
    (b : Bool) (s t u : PilotExecuteState) → Steady s t → Steady s u → Steady s (if b then t else u)
choice-Steady true s t u h k = h
choice-Steady false s t u h k = k

-- The blocks of the sequencer that run no microcode.
core_op-Steady : (s : PilotExecuteState) → Steady s (core_op s)
unfolding core_op
core_op-Steady s =
    choice-Steady (at_core s.sequencer_phase) s _ _
      (sequenced s exec_seq_core_op_executed at_core_op s.mucode_control s.mucode_decoded_buffer
        λ f. (f.entry, f.buffer))
      (Steady-refl s)

start-Steady :
    (s : PilotExecuteState) (phase : SequencerPhase) (spec : MucodeEntrySpec)
    → (Fits s → spec.reg_select < 2 ^ 8)
    → Steady s (start_mucode phase spec s)
start-Steady s phase spec small =
    sequenced s phase s.control spec s.mucode_decoded_buffer λ f. (small f, f.buffer)

go_to-Steady : (s : PilotExecuteState) (phase : SequencerPhase) → Steady s (go_to phase s)
go_to-Steady s phase =
    sequenced s phase s.control s.mucode_control s.mucode_decoded_buffer λ f. (f.entry, f.buffer)

eval-Steady : (s : PilotExecuteState) → Steady s (eval_control s)
unfolding eval_control
eval-Steady s =
    choice-Steady (at_eval_control s.sequencer_phase) s _ _
      (choice-Steady (not (is_mu_none s.decoded_inst.override_op.entry_idx)) s _ _
        (start-Steady s exec_seq_override_op s.decoded_inst.override_op (λ f. f.inst.over))
        (choice-Steady (not (is_mu_none s.decoded_inst.run_before.entry_idx)) s _ _
          (start-Steady s exec_seq_run_before s.decoded_inst.run_before (λ f. f.inst.before))
          (go_to-Steady s exec_seq_core_op)))
      (Steady-refl s)

after_core_op-Steady : (s : PilotExecuteState) → Steady s (after_core_op s)
unfolding after_core_op
after_core_op-Steady s =
    choice-Steady (at_core_op_executed s.sequencer_phase) s _ _
      (choice-Steady (not (is_mu_none s.decoded_inst.run_after.entry_idx)) s _ _
        (start-Steady s exec_seq_run_after s.decoded_inst.run_after (λ f. f.inst.after))
        (go_to-Steady s exec_seq_final_steps))
      (Steady-refl s)

final_steps-Steady : (s : PilotExecuteState) → Steady s (final_steps s)
unfolding final_steps
final_steps-Steady s =
    choice-Steady (at_final_steps s.sequencer_phase) s _ _ (go_to-Steady s exec_seq_wait_next_ins)
      (Steady-refl s)

-- The instructions that the pointer may refer to.
abbrev pub AllFit : (ℕ → Outcome InstDecodedFlags) → Type 0
AllFit inst_at = (addr : ℕ) → Ensures (λ inst. InstFits inst) (inst_at addr)

next-Steady :
    (inst_at : ℕ → Outcome InstDecodedFlags) (s : PilotExecuteState)
    → AllFit inst_at
    → Ensures (Steady s) (next_instruction inst_at s)
unfolding next_instruction
next-Steady inst_at s h =
    Ensures-branch Steady
      (at_wait_next_ins s.sequencer_phase && s.sys.interconnects.decoded_inst_semaph) s _ _
      (Ensures-bind (λ inst. InstFits inst) (Steady s) (inst_at s.sys.interconnects.decoded_inst) _
        (h s.sys.interconnects.decoded_inst) λ inst k. taken s inst k)
      (Steady-refl s)

-- A step before others.
Steady-from :
    (s t : PilotExecuteState) (m : Outcome PilotExecuteState)
    → Steady s t
    → Ensures (Steady t) m
    → Ensures (Steady s) m
Steady-from s t m h k = Ensures-weaken (Steady t) (Steady s) m k λ u q. Steady-trans s t u h q

module _ (ext : ExecuteExterns) (silent : SilentDecode ext) (junk : MucodeEntry)
    (byte : junk.operation.flag_write_mask < 2 ^ 8) where
  run-Steady :
      (s : PilotExecuteState)
      → Ensures (λ r. Steady s r.0) (pilot_execute_sequencer_mucode_run ext junk s)
  unfolding pilot_execute_sequencer_mucode_run
  run-Steady s =
      let d = decode_mucode_entry-kept ext.decode_unreachable junk s.mucode_control s (silent s) in
      rw d.1 (
        sequenced s s.sequencer_phase at_mucode_buffer _ _
          λ f. (omega (arith, d.2, f.entry), omega (arith, d.3, byte)))

  entry-Steady :
      (at_phase : SequencerPhase → Bool) (after : SequencerPhase) (s : PilotExecuteState)
      → Ensures (Steady s) (run_entry ext junk at_phase after s)
  unfolding run_entry
  entry-Steady at_phase after s =
      Ensures-branch Steady (at_phase s.sequencer_phase) s _ _
        (Ensures-bind (λ r. Steady s r.0) (Steady s) (pilot_execute_sequencer_mucode_run ext junk s)
          _ (run-Steady s)
          λ r h.
            Steady-trans s r.0 _ h
              (choice-Steady (not r.1) r.0 _ _ (go_to-Steady r.0 after) (Steady-refl r.0)))
        (Steady-refl s)

  pub advance-Steady :
      (inst_at : ℕ → Outcome InstDecodedFlags) (s : PilotExecuteState)
      → AllFit inst_at
      → Ensures (Steady s) (pilot_execute_sequencer_advance ext junk inst_at s)
  unfolding pilot_execute_sequencer_advance
  advance-Steady inst_at s h =
      let s0 = final_steps (after_core_op s) in
      Ensures-chain Steady Steady-trans s (next_instruction inst_at s0) _
        (Steady-from s s0 (next_instruction inst_at s0)
          (Steady-trans s (after_core_op s) s0 (after_core_op-Steady s)
            (final_steps-Steady (after_core_op s)))
          (next-Steady inst_at s0 h))
        λ s1.
          Ensures-chain Steady Steady-trans s1
            (run_entry ext junk at_override_op exec_seq_final_steps (eval_control s1)) _
            (Steady-from s1 (eval_control s1) _ (eval-Steady s1)
              (entry-Steady at_override_op exec_seq_final_steps (eval_control s1)))
            λ s2.
              Ensures-chain Steady Steady-trans s2
                (run_entry ext junk at_run_before exec_seq_core_op s2) _
                (entry-Steady at_run_before exec_seq_core_op s2)
                λ s3.
                  Steady-from s3 (core_op s3) _ (core_op-Steady s3)
                    (entry-Steady at_run_after exec_seq_final_steps (core_op s3))
