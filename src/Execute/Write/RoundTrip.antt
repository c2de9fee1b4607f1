-- ===== src/Execute/Write/RoundTrip.antt =====
-- pilot-cpu/cpu_execute.c: `write_data_` followed by `fetch_data_`, register by register.
use hexheld_emu.Execute.{ExecuteExterns, PilotExecuteState}
use hexheld_emu.Execute.Fetch.{fetch_data}
use hexheld_emu.Execute.Write.{merge_reg, write_data}
use hexheld_emu.Execute.Write.Merge.{HasParts, high_byte_parts, low_byte_parts, word_parts}
use hexheld_emu.Prelude.{
  ap, arith, bit_and, ok, refl, suc, update, zero, ℕ, ◌%◌, ◌/◌, ◌<<<◌, ◌<◌, ◌>>>◌, ◌∙◌, ◌≡◌,
}
use hexheld_emu.Types.{DataBusSpecifier, data_reg_l0, data_reg_m0, data_reg_w0, offset}

-- Reading `src` yields `n` and changes nothing.
abbrev pub Reads : ExecuteExterns → PilotExecuteState → DataBusSpecifier → ℕ → Type 0
Reads ext t src n = fetch_data ext t src ≡ ok (t, n)

below_4 : (P : ℕ → Type 0) → P 0 → P 1 → P 2 → P 3 → (r : ℕ) → r < 4 → P r
below_4 P a b c d zero h = a
below_4 P a b c d (suc zero) h = b
below_4 P a b c d (suc (suc zero)) h = c
below_4 P a b c d (suc (suc (suc zero))) h = d
below_4 P a b c d (suc (suc (suc (suc r)))) h = absurd (omega arith)

module _ (ext : ExecuteExterns) where
  -- The first four registers as the bus sees them: both byte registers and the upper byte.
  abbrev pub Shows : PilotExecuteState → ℕ → ℕ → ℕ → ℕ → Type 0
  Shows t r low high upper =
      Reads ext t (offset data_reg_l0 r) low
      × Reads ext t (offset data_reg_m0 r) high
      × (t.sys.core.regs r / 65536 % 256 ≡ upper)

  -- A write to `dest` returns a state that shows these parts of register `r`.
  abbrev pub WriteShows : PilotExecuteState → DataBusSpecifier → ℕ → ℕ → ℕ → ℕ → ℕ → Type 0
  WriteShows s dest v r low high upper =
      (t : PilotExecuteState) × (write_data ext s dest v ≡ ok t) × Shows t r low high upper

  fetch_low :
      (t : PilotExecuteState) (r : ℕ)
      → r < 4
      → Reads ext t (offset data_reg_l0 r) (bit_and (t.sys.core.regs r) 0xff)
  unfolding fetch_data offset
  fetch_low t =
      below_4 (λ r. Reads ext t (offset data_reg_l0 r) (bit_and (t.sys.core.regs r) 0xff)) refl refl
        refl refl

  fetch_high :
      (t : PilotExecuteState) (r : ℕ)
      → r < 4
      → Reads ext t (offset data_reg_m0 r) (bit_and (t.sys.core.regs r >>> 8) 0xff)
  unfolding fetch_data offset
  fetch_high t =
      below_4 (λ r. Reads ext t (offset data_reg_m0 r) (bit_and (t.sys.core.regs r >>> 8) 0xff))
        refl refl refl refl

  -- A state whose register `r` has these parts.
  parts-Shows :
      (t : PilotExecuteState) (r : ℕ) {y low high upper : ℕ}
      → r < 4
      → t.sys.core.regs r ≡ y
      → HasParts y low high upper
      → Shows t r low high upper
  parts-Shows t r h e p = (
    fetch_low t r h ∙ ap (λ (n : ℕ). ok (t, n)) (rw e p.low_read),
    fetch_high t r h ∙ ap (λ (n : ℕ). ok (t, n)) (rw e p.high_read),
    rw e p.upper_kept,
  )

  update_self : (f : ℕ → ℕ) (i v : ℕ) → update f i v i ≡ v
  update_self f i v = ground arith

  module _ (s : PilotExecuteState) (v : ℕ) where
    -- Register `r` before the write.
    abbrev pub reg : ℕ → ℕ
    reg r = s.sys.core.regs r

    write_low :
        (r : ℕ)
        → r < 4
        → write_data ext s (offset data_reg_l0 r) v ≡ ok (merge_reg r 0xffff00 (bit_and v 0xff) s)
    unfolding write_data offset
    write_low =
        below_4
          (λ r.
            write_data ext s (offset data_reg_l0 r) v
            ≡ ok (merge_reg r 0xffff00 (bit_and v 0xff) s))
          refl refl refl refl

    -- A write to a low byte register: it reads back the low byte of the value, and the high byte
    -- register and the upper byte of the same register are as before.
    pub write_data-low_byte :
        (r : ℕ)
        → r < 4
        → WriteShows s
            (offset data_reg_l0 r)
            v
            r
            (v % 256)
            (reg r / 256 % 256)
            (reg r / 65536 % 256)
    write_data-low_byte r h = (
      merge_reg r 0xffff00 (bit_and v 0xff) s,
      write_low r h,
      parts-Shows _ r h (update_self s.sys.core.regs r _) (low_byte_parts (reg r) v),
    )

    write_high :
        (r : ℕ)
        → r < 4
        → write_data ext s (offset data_reg_m0 r) v
          ≡ ok (merge_reg r 0xff00ff (bit_and v 0xff <<< 8) s)
    unfolding write_data offset
    write_high =
        below_4
          (λ r.
            write_data ext s (offset data_reg_m0 r) v
            ≡ ok (merge_reg r 0xff00ff (bit_and v 0xff <<< 8) s))
          refl refl refl refl

    -- A write to a high byte register: it reads back the low byte of the value, and the low byte
    -- register and the upper byte of the same register are as before.
    pub write_data-high_byte :
        (r : ℕ)
        → r < 4
        → WriteShows s (offset data_reg_m0 r) v r (reg r % 256) (v % 256) (reg r / 65536 % 256)
    write_data-high_byte r h = (
      merge_reg r 0xff00ff (bit_and v 0xff <<< 8) s,
      write_high r h,
      parts-Shows _ r h (update_self s.sys.core.regs r _) (high_byte_parts (reg r) v),
    )

    write_word :
        (r : ℕ)
        → r < 4
        → write_data ext s (offset data_reg_w0 r) v ≡ ok (merge_reg r 0xff0000 (bit_and v 0xffff) s)
    unfolding write_data offset
    write_word =
        below_4
          (λ r.
            write_data ext s (offset data_reg_w0 r) v
            ≡ ok (merge_reg r 0xff0000 (bit_and v 0xffff) s))
          refl refl refl refl

    -- A write to one of the first four word registers: the byte registers read the two low bytes of
    -- the value, and the upper byte of the register is as before.
    pub write_data-word :
        (r : ℕ)
        → r < 4
        → WriteShows s (offset data_reg_w0 r) v r (v % 256) (v / 256 % 256) (reg r / 65536 % 256)
    write_data-word r h = (
      merge_reg r 0xff0000 (bit_and v 0xffff) s,
      write_word r h,
      parts-Shows _ r h (update_self s.sys.core.regs r _) (word_parts (reg r) v),
    )
