-- ===== src/Decode/Stage/Handover.antt =====
-- pilot-cpu/cpu_decode.c: the decode stage around the handover of an instruction.
use hexheld_emu.Decode.{DecodeExterns, PilotDecodeState, decoder_half1_dispatch_wait}
use hexheld_emu.Decode.Stage.{pilot_decode_half1, pilot_decode_half2, semaph}
use hexheld_emu.Prelude.{arith, ok, true, ◌≡◌}

-- An instruction is handed over and not yet taken.
abbrev pub IsHanded : PilotDecodeState → Type 0
IsHanded s = (s.decoding_phase ≡ decoder_half1_dispatch_wait) × (semaph s ≡ true)

module _ (ext : DecodeExterns) where
  -- While an instruction is handed over and not yet taken, neither half cycle changes anything: the
  -- signals for the execute stage are held.
  pub decode_halves-IsHanded :
      (s : PilotDecodeState)
      → IsHanded s
      → (pilot_decode_half1 ext s ≡ ok s) × (pilot_decode_half2 ext s ≡ ok s)
  unfolding pilot_decode_half1 pilot_decode_half2
  decode_halves-IsHanded s h = ground arith
