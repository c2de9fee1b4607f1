-- ===== src/Decode/Widths.antt =====
-- pilot-cpu/cpu_decode.h: the widths of the variables of the decode stage, and what the stage never
-- assigns.
pub mod Rm
pub mod Inst
pub mod Stage
use hexheld_emu.Decode.{DecodeExterns, DecodingPhase, PilotDecodeState, read_word, report_invalid}
use hexheld_emu.Prelude.{
  Bool, Ensures, Ensures-bind, Ensures-branch, Ensures-chain, Ensures-weaken, Outcome, false,
  if◌then◌else◌, refl, true, ℕ, ◌<◌, ◌>>=◌, ◌^◌, ◌∙◌, ◌≡◌,
}
use hexheld_emu.System.Widths.{InstFits, MachineFits}
use hexheld_emu.Types.{
  BranchCond, BranchDestType, ExecuteControlWord, FlagCMode, InstDecodedFlags, MucodeEntrySpec,
  mem_latch_half2_mar,
}

-- The variables of the machine and of the decode stage are in the ranges of their C types.
pub record DecodeFits (s : PilotDecodeState) : Type 0 where
  pub machine : MachineFits s.sys
  pub inst : InstFits s.work_regs
  pub pgc : s.pgc < 2 ^ 32
  pub length : s.inst_length < 2 ^ 8
  pub wanted : s.words_to_read < 2 ^ 8
  pub count : s.rm_ops < 2 ^ 8

-- The fields of an instruction that no function of the stage assigns.
pub record Unassigned : Type 0 where
  pub override_op : MucodeEntrySpec
  pub rm2_offset : ℕ
  pub auto_incr_amount : ℕ
  pub branch : Bool
  pub branch_cond : BranchCond
  pub branch_dest_type : BranchDestType
  pub invert_carries : Bool
  pub flag_c_mode : FlagCMode
  pub flag_d : Bool
  pub mem_access_suppress : Bool

abbrev pub unassigned : InstDecodedFlags → Unassigned
unassigned w = record {
  override_op = w.override_op;
  rm2_offset = w.rm2_offset;
  auto_incr_amount = w.auto_incr_amount;
  branch = w.branch;
  branch_cond = w.branch_cond;
  branch_dest_type = w.branch_dest_type;
  invert_carries = w.core_op.invert_carries;
  flag_c_mode = w.core_op.flag_c_mode;
  flag_d = w.core_op.flag_d;
  mem_access_suppress = w.core_op.mem_access_suppress;
}

-- The operation writes its result to memory in its second half.
abbrev pub LatchesMar : InstDecodedFlags → Type 0
LatchesMar w = w.core_op.mem_latch_ctl ≡ mem_latch_half2_mar

-- The registers, `hram` and those fields are what they are in `s`, and the widths are kept.
pub record Unmoved (s t : PilotDecodeState) : Type 0 where
  pub rest : unassigned t.work_regs ≡ unassigned s.work_regs
  pub latch : LatchesMar s.work_regs → LatchesMar t.work_regs
  pub core : t.sys.core ≡ s.sys.core
  pub hram : t.sys.hram ≡ s.sys.hram
  pub fits : DecodeFits s → DecodeFits t

pub Unmoved-refl : (s : PilotDecodeState) → Unmoved s s
Unmoved-refl s = record { rest = refl; latch = λ e. e; core = refl; hram = refl; fits = λ f. f }

pub Unmoved-trans : (s t u : PilotDecodeState) → Unmoved s t → Unmoved t u → Unmoved s u
Unmoved-trans s t u h k = record {
  rest = k.rest ∙ h.rest;
  latch = λ e. k.latch (h.latch e);
  core = k.core ∙ h.core;
  hram = k.hram ∙ h.hram;
  fits = λ f. k.fits (h.fits f);
}

-- The external functions write no register, no byte of `hram` and none of those fields, and keep
-- the widths, where they return.
pub record LeavesMachine (ext : DecodeExterns) : Type 0 where
  pub unreachable : (s : PilotDecodeState) → Ensures (Unmoved s) (ext.unreachable s)
  pub not_implemented : (s : PilotDecodeState) → Ensures (Unmoved s) (ext.not_implemented s)
  pub undeclared : (s : PilotDecodeState) → Ensures (Unmoved s) (ext.not_implemented_undeclared s)
  pub invalid : (s : PilotDecodeState) → Ensures (Unmoved s) (report_invalid ext s)
  pub try_read : (s : PilotDecodeState) → Ensures (λ r. Unmoved s r.0) (ext.try_read_word s)

-- The assignments of the stage.
pub assigned :
    (s : PilotDecodeState) (w : InstDecodedFlags) (length wanted count : ℕ) (phase : DecodingPhase)
    → (DecodeFits s → InstFits w)
    → unassigned w ≡ unassigned s.work_regs
    → (LatchesMar s.work_regs → LatchesMar w)
    → (DecodeFits s → (length < 2 ^ 8) × (wanted < 2 ^ 8) × (count < 2 ^ 8))
    → Unmoved s (record s {
      work_regs = w;
      inst_length = length;
      words_to_read = wanted;
      decoding_phase = phase;
      rm_ops = count;
    })
assigned s w length wanted count phase same keep stick small = record {
  rest = keep;
  latch = stick;
  core = refl;
  hram = refl;
  fits = λ f. record {
    machine = f.machine;
    inst = same f;
    pgc = f.pgc;
    length = (small f).0;
    wanted = (small f).1;
    count = (small f).2;
  };
}

-- An assignment to `work_regs`.
pub work_regs-Unmoved :
    (s : PilotDecodeState) (w : InstDecodedFlags)
    → (DecodeFits s → InstFits w)
    → unassigned w ≡ unassigned s.work_regs
    → (LatchesMar s.work_regs → LatchesMar w)
    → Unmoved s (record s { work_regs = w })
work_regs-Unmoved s w same keep stick =
    assigned s w s.inst_length s.words_to_read s.rm_ops s.decoding_phase same keep stick
      λ f. (f.length, f.wanted, f.count)

pub core-Unmoved :
    (s : PilotDecodeState) (c : ExecuteControlWord)
    → unassigned (record s.work_regs { core_op = c }) ≡ unassigned s.work_regs
    → (LatchesMar s.work_regs → LatchesMar (record s.work_regs { core_op = c }))
    → (s.work_regs.core_op.flag_write_mask < 2 ^ 8 → c.flag_write_mask < 2 ^ 8)
    → Unmoved s (record s { work_regs = record s.work_regs { core_op = c } })
core-Unmoved s c keep stick small =
    work_regs-Unmoved s (record s.work_regs { core_op = c })
      (λ f. record {
        words = f.inst.words;
        inst_pgc = f.inst.inst_pgc;
        over = f.inst.over;
        before = f.inst.before;
        after = f.inst.after;
        mask = small f.inst.mask;
        increment = f.inst.increment;
        second = f.inst.second;
      })
      keep stick

pub choice-Unmoved :
    (b : Bool) (s t u : PilotDecodeState)
    → Unmoved s t
    → Unmoved s u
    → Unmoved s (if b then t else u)
choice-Unmoved true s t u h k = h
choice-Unmoved false s t u h k = k

-- A step before others, and steps one after another.
pub from-Unmoved :
    (s t : PilotDecodeState) (m : Outcome PilotDecodeState)
    → Unmoved s t
    → Ensures (Unmoved t) m
    → Ensures (Unmoved s) m
from-Unmoved s t m h k = Ensures-weaken (Unmoved t) (Unmoved s) m k λ u q. Unmoved-trans s t u h q

pub then-Unmoved :
    (s : PilotDecodeState) (m : Outcome PilotDecodeState)
    (f : PilotDecodeState → Outcome PilotDecodeState)
    → Ensures (Unmoved s) m
    → ((t : PilotDecodeState) → Ensures (Unmoved t) (f t))
    → Ensures (Unmoved s) (m >>= f)
then-Unmoved s m f h k = Ensures-chain Unmoved Unmoved-trans s m f h k

pub branch-Unmoved :
    (b : Bool) (s : PilotDecodeState) (m n : Outcome PilotDecodeState)
    → Ensures (Unmoved s) m
    → Ensures (Unmoved s) n
    → Ensures (Unmoved s) (if b then m else n)
branch-Unmoved b s m n h k = Ensures-branch Unmoved b s m n h k

pub read_word-Unmoved :
    (ext : DecodeExterns) (leaves : LeavesMachine ext) (s : PilotDecodeState)
    → Ensures (Unmoved s) (read_word ext s)
read_word-Unmoved ext leaves s =
    Ensures-bind (λ r. Unmoved s r.0) (Unmoved s) (ext.try_read_word s) _ (leaves.try_read s)
      λ r h. h
