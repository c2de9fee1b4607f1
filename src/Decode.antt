-- ===== src/Decode.antt =====
-- pilot-cpu/cpu_decode.h: the state of the decode stage, and the functions that it calls and the
-- repository does not define. The children hold the RM operands (Rm), the instruction groups (Inst)
-- and the two half cycles (Stage).
pub mod Rm
pub mod Inst
pub mod Stage
pub mod Widths
use hexheld_emu.Prelude.{Bool, Outcome, ok, ℕ, ◌>>=◌}
use hexheld_emu.System.{PilotSystem}
use hexheld_emu.Types.{ExecuteControlWord, InstDecodedFlags}

pub data DecodingPhase : Type 0 where
  decoder_half1_dispatch_wait decoder_half1_ready decoder_half1_read_inst_word : DecodingPhase
  decoder_half2_read_operands decoder_half2_dispatch : DecodingPhase

-- `sys` is the machine that the pointer of that name refers to.
pub record PilotDecodeState : Type 0 where
  pub sys : PilotSystem
  pub work_regs : InstDecodedFlags
  pub pgc : ℕ  -- uint32_t
  pub inst_length : ℕ  -- uint8_t
  pub words_to_read : ℕ  -- uint8_t
  pub decoding_phase : DecodingPhase
  pub rm_ops : ℕ  -- uint8_t

-- What the functions outside the repository do to the state. `not_implemented` is
-- `decode_not_implemented_`; `not_implemented_undeclared` is the name without the underscore, which
-- two branches call and nothing declares.
pub record DecodeExterns : Type 0 where
  pub unreachable : PilotDecodeState → Outcome PilotDecodeState
  pub not_implemented : PilotDecodeState → Outcome PilotDecodeState
  pub not_implemented_undeclared : PilotDecodeState → Outcome PilotDecodeState
  pub invalid_opcode : PilotSystem → Outcome PilotSystem
  pub try_read_word : PilotDecodeState → Outcome (PilotDecodeState × Bool)

-- Assignments to a part of `work_regs`.
abbrev pub set_core :
    (ExecuteControlWord → ExecuteControlWord) → PilotDecodeState → PilotDecodeState
set_core f s = record s { work_regs = record s.work_regs { core_op = f s.work_regs.core_op } }

-- `decode_invalid_opcode_(state->sys)`.
abbrev pub report_invalid : DecodeExterns → PilotDecodeState → Outcome PilotDecodeState
report_invalid ext s = ext.invalid_opcode s.sys >>= λ sys'. ok (record s { sys = sys' })

-- `decode_try_read_word_(state);` with its result dropped.
abbrev pub read_word : DecodeExterns → PilotDecodeState → Outcome PilotDecodeState
read_word ext s = ext.try_read_word s >>= λ r. ok r.0
