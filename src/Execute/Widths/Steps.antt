-- ===== src/Execute/Widths/Steps.antt =====
-- pilot-cpu/cpu_execute.c: how the half cycles are put together from blocks, each under a test.
use hexheld_emu.Execute.{PilotExecuteState, controlled}
use hexheld_emu.Execute.Widths.{Sound, Sound-refl, Sound-trans}
use hexheld_emu.Prelude.{
  Bool, Ensures, Ensures-branch, Ensures-chain, Outcome, false, fault, if◌then◌else◌, ok, true,
  ◌>>=◌,
}
use hexheld_emu.Types.{ExecuteControlWord}

pub pair-Sound :
    (b : Bool) (s : PilotExecuteState) (p q : PilotExecuteState × Bool)
    → Sound s p.0
    → Sound s q.0
    → Sound s (if b then p else q).0
pair-Sound true s p q h k = h
pair-Sound false s p q h k = k

-- One block of a half cycle, where it is entered and where it is not.
pub block-Sound :
    (b : Bool) (m : Outcome PilotExecuteState) (s : PilotExecuteState)
    → Ensures (Sound s) m
    → Ensures (Sound s) (if b then m else ok s)
block-Sound b m s h = Ensures-branch Sound b s m (ok s) h (Sound-refl s)

-- Two branches.
pub branch-Sound :
    (b : Bool) (s : PilotExecuteState) (m n : Outcome PilotExecuteState)
    → Ensures (Sound s) m
    → Ensures (Sound s) n
    → Ensures (Sound s) (if b then m else n)
branch-Sound b s m n h k = Ensures-branch Sound b s m n h k

pub choice-Sound :
    (b : Bool) (s t u : PilotExecuteState) → Sound s t → Sound s u → Sound s (if b then t else u)
choice-Sound true s t u h k = h
choice-Sound false s t u h k = k

-- A step after another.
pub then-Sound :
    (s : PilotExecuteState) (m : Outcome PilotExecuteState)
    (f : PilotExecuteState → Outcome PilotExecuteState)
    → Ensures (Sound s) m
    → ((t : PilotExecuteState) → Ensures (Sound t) (f t))
    → Ensures (Sound s) (m >>= f)
then-Sound s m f h k = Ensures-chain Sound Sound-trans s m f h k

-- Reading the control word first.
read_word-Sound :
    (s : PilotExecuteState) (m : Outcome ExecuteControlWord)
    (f : ExecuteControlWord → Outcome PilotExecuteState)
    → ((ctl : ExecuteControlWord) → Ensures (Sound s) (f ctl))
    → Ensures (Sound s) (m >>= f)
read_word-Sound s (ok ctl) f h = h ctl
read_word-Sound s (fault e) f h = tt

pub word-Sound :
    (s : PilotExecuteState) (f : ExecuteControlWord → Outcome PilotExecuteState)
    → ((ctl : ExecuteControlWord) → Ensures (Sound s) (f ctl))
    → Ensures (Sound s) (controlled s >>= f)
word-Sound s f h = read_word-Sound s (controlled s) f h
