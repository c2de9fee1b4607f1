-- ===== src/Decode/Stage/Operands.antt =====
-- pilot-cpu/cpu_decode.c, `pilot_decode_half2`: reading the operand words takes as many calls as there
-- are words, and ends with the handover.
use hexheld_emu.Decode.{
  DecodeExterns, PilotDecodeState, decoder_half2_dispatch, decoder_half2_read_operands,
}
use hexheld_emu.Decode.Stage.{at_read_operands, pilot_decode_half2, read_operand, read_operands}
use hexheld_emu.Decode.Stage.Handover.{IsHanded, decode_halves-IsHanded}
use hexheld_emu.Prelude.{
  Bool-cases, Outcome, Returns, Returns-bind, ap, arith, inl, inr, ltb, ok, suc, true, zero, ℕ, ◌<◌,
  ◌>>=◌, ◌≡◌, ◌≤◌, ◌⊎◌,
}

-- What the stage relies on: the fetch unit has a word ready at each call, and delivering it changes
-- neither the phase nor the count of words.
abbrev pub Delivers : DecodeExterns → Type 0
Delivers ext =
    (s : PilotDecodeState)
    → Returns
        (λ r.
          (r.1 ≡ true)
          × (r.0.decoding_phase ≡ s.decoding_phase)
          × (r.0.words_to_read ≡ s.words_to_read))
        (ext.try_read_word s)

-- Reading operands, with at most `n` words wanted.
abbrev pub Wants : ℕ → PilotDecodeState → Type 0
Wants n s = (s.decoding_phase ≡ decoder_half2_read_operands) × (s.words_to_read ≤ n)

module _ (ext : DecodeExterns) where
  -- The second half, `n` times.
  pub half2_times : ℕ → PilotDecodeState → Outcome PilotDecodeState
  half2_times zero s = ok s
  half2_times (suc n) s = pilot_decode_half2 ext s >>= half2_times n

  IsHanded-half2_times :
      (n : ℕ) (s : PilotDecodeState) → IsHanded s → Returns IsHanded (half2_times n s)
  unfolding half2_times
  IsHanded-half2_times zero s h = h
  IsHanded-half2_times (suc n) s h =
      rw (decode_halves-IsHanded ext s h).1 (IsHanded-half2_times n s h)

module _ (ext : DecodeExterns) (delivers : Delivers ext) where
  read_operand-Wants :
      (n : ℕ) (s : PilotDecodeState)
      → n < 255
      → Wants (suc n) s
      → Returns (Wants n) (read_operand ext s)
  unfolding read_operand
  read_operand-Wants n s small h = elim (Bool-cases (ltb 0 s.words_to_read)) [
    | inl some_left ↦
        rw some_left (Returns-bind _ _ (ext.try_read_word s) _ (delivers s) λ r d. ground arith)
    | inr none_left ↦ rw none_left (ground arith)
  ]

  read_operands-Wants :
      (n : ℕ) (s : PilotDecodeState)
      → n < 255
      → Wants (suc n) s
      → Returns
          (λ t. (Wants n t × (0 < t.words_to_read)) ⊎ (t.decoding_phase ≡ decoder_half2_dispatch))
          (read_operands ext s)
  unfolding read_operands
  read_operands-Wants n s small h =
      Returns-bind (Wants n) _ (read_operand ext s) _ (read_operand-Wants n s small h)
        λ t w. ground arith

  half2-Wants :
      (n : ℕ) (s : PilotDecodeState)
      → n < 255
      → Wants (suc n) s
      → Returns (λ t. (Wants n t × (0 < t.words_to_read)) ⊎ IsHanded t) (pilot_decode_half2 ext s)
  unfolding pilot_decode_half2
  half2-Wants n s small h =
      let reading : at_read_operands s.decoding_phase ≡ true = ap at_read_operands h.0 in
      rw reading (
        Returns-bind _ _ (read_operands ext s) _ (read_operands-Wants n s small h)
          λ t w. ground arith)

  -- With a fetch unit that delivers, an instruction whose operands are being read and that wants
  -- at most `n + 1` more words, at most 255, is handed over after `n + 1` second halves, without a
  -- fault.
  pub half2_times-IsHanded :
      (n : ℕ) (s : PilotDecodeState)
      → n < 255
      → Wants (suc n) s
      → Returns IsHanded (half2_times ext (suc n) s)
  unfolding half2_times
  half2_times-IsHanded zero s small h =
      Returns-bind _ _ (pilot_decode_half2 ext s) _ (half2-Wants 0 s small h) λ t w. ground arith
  half2_times-IsHanded (suc n) s small h =
      Returns-bind _ _ (pilot_decode_half2 ext s) _ (half2-Wants (suc n) s small h) λ t w. elim w [
        | inl more ↦ half2_times-IsHanded n t (omega arith) more.0
        | inr done ↦ IsHanded-half2_times ext (suc n) t done
      ]
