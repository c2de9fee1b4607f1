-- ===== src/Decode/Rm/Pointer.antt =====
-- pilot-cpu/cpu_decode_rm.c: when `run_mucode` is used before it is set.
use hexheld_emu.Decode.{DecodeExterns, PilotDecodeState, read_word}
use hexheld_emu.Decode.Rm.{
  MucodePointer, SrcPointer, decode_rm_specifier, left_src, mark_second, no_src, right_src,
  rm_indexed, rm_mode, rm_pgc, rm_requires_mem_fetch, set_entry, set_mucode, set_src, set_up_fetch,
  src_affected, unset_mucode,
}
use hexheld_emu.Prelude.{
  Bool, Bool-cases, Outcome, Returns, Returns-bind, arith, bit_and, false, fault, inl, inr, not, ok,
  passes, passes_at, refl, true, u8, unset_pointer, ℕ, ◌+◌, ◌<◌, ◌==◌, ◌>>=◌, ◌||◌, ◌∙◌, ◌≡◌, ◌≢◌,
  ◌⊎◌,
}
use hexheld_emu.Types.{AluSrcControl, DataSizeSpec, MucodeEntrySpec, mu_ind_pgc_with_imm_rm}

-- The tests under which the chain writes through `run_mucode`.
abbrev writes_mucode : ℕ → Bool
writes_mucode rm =
    bit_and rm 0x23 == 0x22
    || bit_and rm 0x3b == 0x39
    || bit_and rm 0x3b == 0x31
    || bit_and rm 0x3b == 0x29
    || bit_and rm 0x23 == 0x20
    || bit_and rm 0x23 == 0x02
    || bit_and rm 0x23 == 0x01

guard_table : passes (λ rm. rm_requires_mem_fetch rm || not (writes_mucode rm)) 64 ≡ true
unfolding passes rm_requires_mem_fetch
guard_table = refl

writes_mucode_guarded :
    (rm : ℕ) → rm < 64 → (rm_requires_mem_fetch rm || not (writes_mucode rm)) ≡ true
writes_mucode_guarded rm h = passes_at _ rm 64 h guard_table

-- The code returns, with `n` operands counted.
abbrev pub Counted : ℕ → Outcome PilotDecodeState → Type 0
Counted n = Returns (λ t. t.rm_ops ≡ n)

-- What the stage relies on: reading a word returns, and leaves the operand count alone.
abbrev pub ReadsWords : DecodeExterns → Type 0
ReadsWords ext = (s : PilotDecodeState) → Returns (λ r. r.0.rm_ops ≡ s.rm_ops) (ext.try_read_word s)

-- An assignment through a pointer that is set.
set_mucode-Counted :
    (p : MucodePointer) (f : MucodeEntrySpec → MucodeEntrySpec) {n : ℕ} (s : PilotDecodeState)
    → p ≢ unset_mucode
    → s.rm_ops ≡ n
    → Counted n (set_mucode p f s)
unfolding set_mucode
set_mucode-Counted p f s h e = ground arith

-- The block for a memory operand sets the pointer.
set_up_fetch-Counted :
    (n : ℕ) (s : PilotDecodeState) (src : SrcPointer) (is_dest src_is_left : Bool)
    (size : DataSizeSpec)
    → s.rm_ops ≡ n
    → Returns
        (λ r. (r.0.rm_ops ≡ n) × (r.1 ≢ unset_mucode))
        (set_up_fetch s src is_dest src_is_left size)
unfolding set_up_fetch
set_up_fetch-Counted n s no_src false _ size h = (h, λ e. cc)
set_up_fetch-Counted n s no_src true false size h = (h, λ e. cc)
set_up_fetch-Counted n s no_src true true size h = (h, λ e. cc)
set_up_fetch-Counted n s left_src false _ size h = (h, λ e. cc)
set_up_fetch-Counted n s left_src true false size h = (h, λ e. cc)
set_up_fetch-Counted n s left_src true true size h = (h, λ e. cc)
set_up_fetch-Counted n s right_src false _ size h = (h, λ e. cc)
set_up_fetch-Counted n s right_src true false size h = (h, λ e. cc)
set_up_fetch-Counted n s right_src true true size h = (h, λ e. cc)

-- Marking the second operand through the unset pointer.
mark_second-unset :
    (m : Outcome PilotDecodeState)
    → Counted 2 m
    → (m >>= mark_second unset_mucode) ≡ fault unset_pointer
unfolding mark_second
mark_second-unset (ok t) h = rw h
mark_second-unset (fault e) h = elim h [ ]

-- Marking when the pointer is set, or when it is the first operand.
mark_second-Counted :
    (n : ℕ) (p : MucodePointer) (s : PilotDecodeState)
    → (p ≢ unset_mucode) ⊎ (n ≢ 2)
    → s.rm_ops ≡ n
    → Counted n (mark_second p s)
unfolding mark_second
mark_second-Counted n p s h e = ground arith

-- The count after the size was stored through `src_affected`.
set_src-rm_ops :
    (p : SrcPointer) (f : AluSrcControl → AluSrcControl) (s : PilotDecodeState)
    → (set_src p f s).rm_ops ≡ s.rm_ops
unfolding set_src
set_src-rm_ops p f s = ground arith

-- A specifier below 64 that is not in memory passes no test for a micro-operation.
not_writes_mucode : (rm : ℕ) → rm < 64 → rm_requires_mem_fetch rm ≡ false → writes_mucode rm ≡ false
not_writes_mucode rm hr h = guarded _ _ (writes_mucode_guarded rm hr) h
  where
    guarded : (a b : Bool) → (a || not b) ≡ true → a ≡ false → b ≡ false
    guarded a b p q = ground arith

module _ (ext : DecodeExterns) where
  -- Where no test for a micro-operation passes, the chain returns whatever `run_mucode` is.
  rm_mode_direct :
      (n rm : ℕ) (src : SrcPointer) (p : MucodePointer) (size : DataSizeSpec) (s : PilotDecodeState)
      → writes_mucode rm ≡ false
      → s.rm_ops ≡ n
      → Counted n (rm_mode ext rm src p size s)
  unfolding rm_mode
  rm_mode_direct n rm src p size s h e = ground arith

module _ (ext : DecodeExterns) (reads : ReadsWords ext) where
  -- The last word.
  last_word-Counted : (n : ℕ) (s : PilotDecodeState) → s.rm_ops ≡ n → Counted n (read_word ext s)
  last_word-Counted n s e =
      Returns-bind (λ r. r.0.rm_ops ≡ s.rm_ops) _ (ext.try_read_word s) _ (reads s) λ r p. p ∙ e

  -- A word is read, and the rest keeps the count.
  read_word-Counted :
      (n : ℕ) (s : PilotDecodeState) (f : PilotDecodeState → Outcome PilotDecodeState)
      → s.rm_ops ≡ n
      → ((t : PilotDecodeState) → t.rm_ops ≡ n → Counted n (f t))
      → Counted n (read_word ext s >>= f)
  read_word-Counted n s f e keeps =
      Returns-bind (λ t. t.rm_ops ≡ n) _ (read_word ext s) f (last_word-Counted n s e) keeps

  rm_indexed-Counted :
      (n rm : ℕ) (p : MucodePointer) (s : PilotDecodeState)
      → p ≢ unset_mucode
      → s.rm_ops ≡ n
      → Counted n (rm_indexed ext rm p s)
  unfolding rm_indexed
  rm_indexed-Counted n rm p s h e = read_word-Counted n s _ e λ t te.
      elim (Bool-cases (bit_and rm 0x4 == 0)) [
        | inl short ↦ rw short (set_mucode-Counted p _ t h te)
        | inr long ↦ rw long (read_word-Counted n t _ te λ u ue. set_mucode-Counted p _ u h ue)
      ]

  rm_pgc-Counted :
      (n rm : ℕ) (p : MucodePointer) (s : PilotDecodeState)
      → p ≢ unset_mucode
      → s.rm_ops ≡ n
      → Counted n (rm_pgc ext rm p s)
  unfolding rm_pgc
  rm_pgc-Counted n rm p s h e = read_word-Counted n s _ e λ t te.
      Returns-bind (λ u. u.rm_ops ≡ n) _ (set_entry p mu_ind_pgc_with_imm_rm 0 t) _
        (set_mucode-Counted p _ t h te)
        λ u ue. elim (Bool-cases (bit_and rm 0x04 == 0)) [
          | inl short ↦ rw short (set_mucode-Counted p _ u h ue)
          | inr long ↦ rw long (last_word-Counted n u ue)
        ]

  -- The chain through a pointer that is set.
  rm_mode-Counted :
      (n rm : ℕ) (src : SrcPointer) (p : MucodePointer) (size : DataSizeSpec) (s : PilotDecodeState)
      → p ≢ unset_mucode
      → s.rm_ops ≡ n
      → Counted n (rm_mode ext rm src p size s)
  unfolding rm_mode
  rm_mode-Counted n rm src p size s h e =
      ground (arith, rm_indexed-Counted n rm p s h e, rm_pgc-Counted n rm p s h e)

  -- A six-bit specifier of the first RM operand, or of any operand in memory, with fewer than 255
  -- counted: with word reads that return, decoding never goes wrong, and counts one operand more.
  pub decode_rm_specifier-returns :
      (s : PilotDecodeState) (rm : ℕ) (is_dest src_is_left : Bool) (size : DataSizeSpec)
      → rm < 64
      → s.rm_ops < 255
      → (s.rm_ops ≢ 1) ⊎ (rm_requires_mem_fetch rm ≡ true)
      → Counted (s.rm_ops + 1) (decode_rm_specifier ext s rm is_dest src_is_left size)
  unfolding decode_rm_specifier
  decode_rm_specifier-returns s rm is_dest src_is_left size hr hs h =
      let src = src_affected is_dest src_is_left in
      let s1 = record s { rm_ops = u8 (s.rm_ops + 1) } in
      let s2 = set_src src (λ a. record a { size = size }) s1 in
      let n = s.rm_ops + 1 in
      let counted : s2.rm_ops ≡ n = set_src-rm_ops src _ s1 ∙ omega arith in
      elim (Bool-cases (rm_requires_mem_fetch rm)) [
        | inl memory ↦ rw memory (
            Returns-bind _ _ (set_up_fetch s2 src is_dest src_is_left size) _
              (set_up_fetch-Counted n s2 src is_dest src_is_left size counted)
              λ r p.
                Returns-bind (λ t. t.rm_ops ≡ n) _ (rm_mode ext rm src r.1 size r.0) _
                  (rm_mode-Counted n rm src r.1 size r.0 p.1 p.0)
                  λ t e. mark_second-Counted n r.1 t (inl p.1) e)
        | inr direct ↦ rw direct (
            Returns-bind (λ t. t.rm_ops ≡ n) _ (rm_mode ext rm src unset_mucode size s2) _
              (rm_mode_direct ext n rm src unset_mucode size s2 (not_writes_mucode rm hr direct)
                counted)
              λ t e. mark_second-Counted n unset_mucode t (ground arith) e)
      ]

-- The second RM operand, a six-bit specifier that is not in memory: `run_mucode` is used without
-- having been set, whatever the other arguments are.
pub decode_rm_specifier-second_direct :
    (ext : DecodeExterns) (s : PilotDecodeState) (rm : ℕ) (is_dest src_is_left : Bool)
    (size : DataSizeSpec)
    → rm < 64
    → s.rm_ops ≡ 1
    → rm_requires_mem_fetch rm ≡ false
    → decode_rm_specifier ext s rm is_dest src_is_left size ≡ fault unset_pointer
unfolding decode_rm_specifier
decode_rm_specifier-second_direct ext s rm is_dest src_is_left size hr hs h =
    let src = src_affected is_dest src_is_left in
    let s1 = record s { rm_ops = u8 (s.rm_ops + 1) } in
    let s2 = set_src src (λ a. record a { size = size }) s1 in
    let counted : s2.rm_ops ≡ 2 = set_src-rm_ops src _ s1 ∙ omega arith in
    rw h (
      mark_second-unset _
        (rm_mode_direct ext 2 rm src unset_mucode size s2 (not_writes_mucode rm hr h) counted))
