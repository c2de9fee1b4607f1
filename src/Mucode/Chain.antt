-- ===== src/Mucode/Chain.antt =====
-- pilot-cpu/cpu_mucode.c: which entry follows which. A microprogram is the entries met by
-- decoding `next` until it is `MU_NONE`.
use mathlib.Core.Option
use hexheld_emu.Mucode.{decode_mucode_entry, dispatch}
use hexheld_emu.Mucode.Entries.{base_entry}
use hexheld_emu.Prelude.{
  Option, Outcome, arith, false, none, ok, refl, some, suc, true, zero, ℕ, ◌>>=◌, ◌≡◌, ◌≤◌,
}
use hexheld_emu.Types.{
  ExecuteControlWord, MucodeEntry, MucodeEntryIdx, MucodeEntrySpec, is_mu_none,
  mu_ind_reg_post_auto, mu_none, mu_post_autoidx,
}

-- The diagram: only the post-increment addressing has a second entry.
abbrev pub successor : MucodeEntryIdx → MucodeEntryIdx
successor mu_ind_reg_post_auto = mu_post_autoidx
successor _ = mu_none

-- The number of entries in the microprogram.
abbrev pub entry_count : MucodeEntryIdx → ℕ
entry_count mu_none = 0
entry_count mu_ind_reg_post_auto = 2
entry_count _ = 1

-- The operation that is decoded from `spec`.
abbrev pub decoded_operation : MucodeEntry → MucodeEntrySpec → Outcome ExecuteControlWord
decoded_operation junk spec =
    decode_mucode_entry (λ (caller : ℕ). ok caller) junk spec 0 >>= λ r. ok r.1.operation

module _ {S : Type 0} (unreachable : S → Outcome S) (junk : MucodeEntry) where
  -- What the decoder returns for a `spec` whose entry is `idx`.
  abbrev Decodes : MucodeEntryIdx → MucodeEntrySpec → S → Type 0
  Decodes idx spec s =
      (entry : MucodeEntry) × (dispatch unreachable junk idx spec s ≡ ok (s, entry))
      × (entry.next ≡ record spec { entry_idx = successor idx })

  dispatch-Decodes :
      (idx : MucodeEntryIdx) (spec : MucodeEntrySpec) (s : S)
      → is_mu_none idx ≡ false
      → Decodes idx spec s
  unfolding dispatch
  dispatch-Decodes mu_none spec s h = cc
  dispatch-Decodes _ spec s h = (_, refl, refl)

  -- Every entry but `MU_NONE` decodes, leaves the caller's state alone, and is followed by the entry
  -- of the diagram with the same operand, size and direction, whatever the uninitialised fields hold.
  pub decode_mucode_entry-successor :
      (spec : MucodeEntrySpec) (s : S)
      → is_mu_none spec.entry_idx ≡ false
      → (entry : MucodeEntry) × (decode_mucode_entry unreachable junk spec s ≡ ok (s, entry))
        × (entry.next ≡ record spec { entry_idx = successor spec.entry_idx })
  unfolding decode_mucode_entry
  decode_mucode_entry-successor spec s h = dispatch-Decodes spec.entry_idx spec s h

  operation-Decodes :
      (idx : MucodeEntryIdx) (spec : MucodeEntrySpec) (s : S)
      → is_mu_none idx ≡ false
      → (entry : MucodeEntry) × (dispatch unreachable junk idx spec s ≡ ok (s, entry))
        × (entry.next ≡ record spec { entry_idx = successor idx })
        × ((dispatch (λ (caller : ℕ). ok caller) junk idx spec 0 >>= λ r. ok r.1.operation)
            ≡ ok entry.operation)
  unfolding dispatch
  operation-Decodes mu_none spec s h = cc
  operation-Decodes _ spec s h = (_, refl, refl, refl)

  -- The same, with the operation.
  pub decode_mucode_entry-operation :
      (spec : MucodeEntrySpec) (s : S)
      → is_mu_none spec.entry_idx ≡ false
      → (entry : MucodeEntry) × (decode_mucode_entry unreachable junk spec s ≡ ok (s, entry))
        × (entry.next ≡ record spec { entry_idx = successor spec.entry_idx })
        × (decoded_operation junk spec ≡ ok entry.operation)
  unfolding decode_mucode_entry
  decode_mucode_entry-operation spec s h = operation-Decodes spec.entry_idx spec s h

  dispatch-silent :
      (idx : MucodeEntryIdx) (spec : MucodeEntrySpec) (s : S)
      → unreachable s ≡ ok s
      → (entry : MucodeEntry) × (dispatch unreachable junk idx spec s ≡ ok (s, entry))
  unfolding dispatch
  dispatch-silent mu_none spec s h = (base_entry junk spec, rw h refl)
  dispatch-silent _ spec s h = (_, refl)

  -- With an unreachable call that returns the state as it is, so does every decoding.
  pub decode_mucode_entry-silent :
      (spec : MucodeEntrySpec) (s : S)
      → unreachable s ≡ ok s
      → (entry : MucodeEntry) × (decode_mucode_entry unreachable junk spec s ≡ ok (s, entry))
  unfolding decode_mucode_entry
  decode_mucode_entry-silent spec s h = dispatch-silent spec.entry_idx spec s h

  dispatch-kept :
      (idx : MucodeEntryIdx) (spec : MucodeEntrySpec) (s : S)
      → unreachable s ≡ ok s
      → (entry : MucodeEntry) × (dispatch unreachable junk idx spec s ≡ ok (s, entry))
        × (entry.next.reg_select ≡ spec.reg_select)
        × (entry.operation.flag_write_mask ≡ junk.operation.flag_write_mask)
  unfolding dispatch
  dispatch-kept mu_none spec s h = (base_entry junk spec, rw h refl, refl, refl)
  dispatch-kept _ spec s h = (_, refl, refl, refl)

  -- What every entry keeps: the register, and the mask that the local variable held.
  pub decode_mucode_entry-kept :
      (spec : MucodeEntrySpec) (s : S)
      → unreachable s ≡ ok s
      → (entry : MucodeEntry) × (decode_mucode_entry unreachable junk spec s ≡ ok (s, entry))
        × (entry.next.reg_select ≡ spec.reg_select)
        × (entry.operation.flag_write_mask ≡ junk.operation.flag_write_mask)
  unfolding decode_mucode_entry
  decode_mucode_entry-kept spec s h = dispatch-kept spec.entry_idx spec s h

  -- Runs through the chain with fuel and counts the entries; `none` means that the fuel ran out.
  pub microprogram : ℕ → MucodeEntrySpec → S → Outcome (Option ℕ)
  microprogram zero spec s = ok none
  microprogram (suc fuel) spec s = elim (is_mu_none spec.entry_idx) [
    | true ↦ ok (some 0)
    | false ↦ do
      (s', entry) ← decode_mucode_entry unreachable junk spec s
      count ← microprogram fuel entry.next s'
      ok (Option.map suc count)
  ]

  dispatch_count :
      (fuel : ℕ) (idx : MucodeEntryIdx) (spec : MucodeEntrySpec) (s : S)
      → spec.entry_idx ≡ idx
      → microprogram (suc (suc (suc fuel))) spec s ≡ ok (some (entry_count idx))
  unfolding microprogram decode_mucode_entry
  dispatch_count fuel mu_none spec s e = rw e
  dispatch_count fuel mu_ind_reg_post_auto spec s e = rw e
  dispatch_count fuel _ spec s e = rw e

  -- Every microprogram ends, after no entry, one or two: three rounds of fuel are enough.
  pub microprogram-entry_count :
      (fuel : ℕ) (spec : MucodeEntrySpec) (s : S)
      → 3 ≤ fuel
      → microprogram fuel spec s ≡ ok (some (entry_count spec.entry_idx))
  microprogram-entry_count zero spec s h = absurd (omega arith)
  microprogram-entry_count (suc zero) spec s h = absurd (omega arith)
  microprogram-entry_count (suc (suc zero)) spec s h = absurd (omega arith)
  microprogram-entry_count (suc (suc (suc fuel))) spec s h =
      dispatch_count fuel spec.entry_idx spec s refl
