-- ===== src/Decode/Widths/Rm.antt =====
-- pilot-cpu/cpu_decode_rm.c: the widths through the decoder of RM operands.
use hexheld_emu.Bits.{bit_and-mask, op-lt, or_law}
use hexheld_emu.Decode.{DecodeExterns, PilotDecodeState, set_core}
use hexheld_emu.Decode.Rm.{
  MucodePointer, SrcPointer, at_run_after, at_run_before, decode_rm_specifier, has_src, left_src,
  mark_second, no_src, right_src, rm_indexed, rm_mode, rm_pgc, rm_reg, rm_requires_mem_fetch,
  set_mucode, set_src, set_up_fetch, src_affected, unset_mucode,
}
use hexheld_emu.Decode.Widths.{
  LeavesMachine, Unmoved, Unmoved-refl, Unmoved-trans, assigned, branch-Unmoved, choice-Unmoved,
  core-Unmoved, from-Unmoved, read_word-Unmoved, then-Unmoved, work_regs-Unmoved,
}
use hexheld_emu.Prelude.{
  Bool, Ensures, Ensures-bind, Ensures-weaken, arith, bit_and, bit_or, false, if◌then◌else◌, ok,
  refl, true, u8, ℕ, ◌&&◌, ◌+◌, ◌/◌, ◌<◌, ◌==◌, ◌>>=◌, ◌^◌,
}
use hexheld_emu.Types.{
  AluSrcControl, DataSizeSpec, MucodeEntrySpec, data_latch_mem_data, mem_latch_half2_mar,
  mem_write_from_dest,
}

set_src-Unmoved :
    (p : SrcPointer) (f : AluSrcControl → AluSrcControl) (s : PilotDecodeState)
    → Unmoved s (set_src p f s)
unfolding set_src
set_src-Unmoved no_src f s = Unmoved-refl s
set_src-Unmoved left_src f s = core-Unmoved s _ refl (λ e. e) (λ m. m)
set_src-Unmoved right_src f s = core-Unmoved s _ refl (λ e. e) (λ m. m)

-- A change of a micro-operation that keeps the width of its register.
abbrev KeepsByte : (MucodeEntrySpec → MucodeEntrySpec) → Type 0
KeepsByte f = (m : MucodeEntrySpec) → m.reg_select < 2 ^ 8 → (f m).reg_select < 2 ^ 8

set_mucode-Unmoved :
    (p : MucodePointer) (f : MucodeEntrySpec → MucodeEntrySpec) (s : PilotDecodeState)
    → KeepsByte f
    → Ensures (Unmoved s) (set_mucode p f s)
unfolding set_mucode
set_mucode-Unmoved unset_mucode f s small = tt
set_mucode-Unmoved at_run_before f s small =
    work_regs-Unmoved s (record s.work_regs { run_before = f s.work_regs.run_before })
      (λ w. record {
        words = w.inst.words;
        inst_pgc = w.inst.inst_pgc;
        over = w.inst.over;
        before = small s.work_regs.run_before w.inst.before;
        after = w.inst.after;
        mask = w.inst.mask;
        increment = w.inst.increment;
        second = w.inst.second;
      })
      refl (λ e. e)
set_mucode-Unmoved at_run_after f s small =
    work_regs-Unmoved s (record s.work_regs { run_after = f s.work_regs.run_after })
      (λ w. record {
        words = w.inst.words;
        inst_pgc = w.inst.inst_pgc;
        over = w.inst.over;
        before = w.inst.before;
        after = small s.work_regs.run_after w.inst.after;
        mask = w.inst.mask;
        increment = w.inst.increment;
        second = w.inst.second;
      })
      refl (λ e. e)

marked-lt : (x mark : ℕ) → x < 2 ^ 8 → mark < 2 ^ 8 → bit_or x mark < 2 ^ 8
marked-lt x mark h k = op-lt or_law 8 x mark h k

register-lt : (rm : ℕ) → rm_reg rm < 2 ^ 8
register-lt rm = omega (arith, bit_and-mask 3 (rm / 2 ^ 2))

mark-Unmoved : (p : MucodePointer) (s : PilotDecodeState) → Ensures (Unmoved s) (mark_second p s)
unfolding mark_second
mark-Unmoved p s =
    branch-Unmoved (s.rm_ops == 2) s _ _
      (set_mucode-Unmoved p _ s λ m h. marked-lt m.reg_select 0x10 h (omega arith)) (Unmoved-refl s)

-- The assignment through the pointer, and the pointer itself.
pointer-Unmoved :
    (p : MucodePointer) (f : MucodeEntrySpec → MucodeEntrySpec) (s t : PilotDecodeState)
    → KeepsByte f
    → Unmoved s t
    → Ensures
        (λ (r : PilotDecodeState × MucodePointer). Unmoved s r.0)
        (set_mucode p f t >>= λ u. ok (u, p))
pointer-Unmoved p f s t small h =
    Ensures-bind (Unmoved t) (λ (r : PilotDecodeState × MucodePointer). Unmoved s r.0)
      (set_mucode p f t) _ (set_mucode-Unmoved p f t small) λ u k. Unmoved-trans s t u h k

set_up-Unmoved :
    (s : PilotDecodeState) (src : SrcPointer) (is_dest src_is_left : Bool) (size : DataSizeSpec)
    → Ensures (λ r. Unmoved s r.0) (set_up_fetch s src is_dest src_is_left size)
unfolding set_up_fetch
set_up-Unmoved s src is_dest src_is_left size =
    let s1 = set_src src (λ a. record a { location = data_latch_mem_data }) s in
    let to_memory =
      set_core
        (λ c. record c {
          dest = data_latch_mem_data;
          mem_latch_ctl = mem_latch_half2_mar;
          mem_write_ctl = mem_write_from_dest;
          mem_size = size;
        })
        s1 in
    let s2 = if is_dest && src_is_left then to_memory else s1 in
    let p =
      if is_dest && src_is_left
      then at_run_before
      else if is_dest
      then at_run_after
      else at_run_before in
    pointer-Unmoved p (λ m. record m { is_write = is_dest }) s s2 (λ m h. h)
      (Unmoved-trans s s1 s2 (set_src-Unmoved src _ s) (
        choice-Unmoved (is_dest && src_is_left) s1 to_memory s1
          (core-Unmoved s1 _ refl (λ e. refl) (λ m. m)) (Unmoved-refl s1)))

-- The state before the mode is looked at.
fetched_or-Unmoved :
    (b : Bool) (s t : PilotDecodeState) (src : SrcPointer) (is_dest src_is_left : Bool)
    (size : DataSizeSpec)
    → Unmoved s t
    → Ensures
        (λ r. Unmoved s r.0)
        (if b then set_up_fetch t src is_dest src_is_left size else ok (t, unset_mucode))
fetched_or-Unmoved true s t src is_dest src_is_left size h =
    Ensures-weaken (λ r. Unmoved t r.0) (λ r. Unmoved s r.0) _
      (set_up-Unmoved t src is_dest src_is_left size) λ r k. Unmoved-trans s t r.0 h k
fetched_or-Unmoved false s t src is_dest src_is_left size h = h

module _ (ext : DecodeExterns) (leaves : LeavesMachine ext) where
  indexed-Unmoved :
      (rm : ℕ) (p : MucodePointer) (s : PilotDecodeState)
      → Ensures (Unmoved s) (rm_indexed ext rm p s)
  unfolding rm_indexed
  indexed-Unmoved rm p s = then-Unmoved s _ _ (read_word-Unmoved ext leaves s) λ t.
      branch-Unmoved (bit_and rm 0x4 == 0) t _ _ (set_mucode-Unmoved p _ t λ m h. omega arith) (
        then-Unmoved t _ _ (read_word-Unmoved ext leaves t)
          λ u. set_mucode-Unmoved p _ u λ m h. omega arith)

  pgc-Unmoved :
      (rm : ℕ) (p : MucodePointer) (s : PilotDecodeState) → Ensures (Unmoved s) (rm_pgc ext rm p s)
  unfolding rm_pgc
  pgc-Unmoved rm p s = then-Unmoved s _ _ (read_word-Unmoved ext leaves s) λ t.
      then-Unmoved t _ _ (set_mucode-Unmoved p _ t λ m h. omega arith) λ u.
        branch-Unmoved (bit_and rm 0x04 == 0) u _ _
          (set_mucode-Unmoved p _ u λ m h. marked-lt m.reg_select 0x8 h (omega arith))
          (read_word-Unmoved ext leaves u)

  mode-Unmoved :
      (rm : ℕ) (src : SrcPointer) (p : MucodePointer) (size : DataSizeSpec) (s : PilotDecodeState)
      → Ensures (Unmoved s) (rm_mode ext rm src p size s)
  unfolding rm_mode
  mode-Unmoved rm src p size s =
      branch-Unmoved (has_src src && bit_and rm 0x03 == 0x03) s _ _ (set_src-Unmoved src _ s) (
        branch-Unmoved (bit_and rm 0x23 == 0x22) s _ _
          (set_mucode-Unmoved p _ s λ m h. register-lt rm)
          (branch-Unmoved (bit_and rm 0x3b == 0x39) s _ _ (indexed-Unmoved rm p s) (
            branch-Unmoved (bit_and rm 0x3b == 0x31) s _ _ (pgc-Unmoved rm p s) (
              branch-Unmoved (bit_and rm 0x3b == 0x29) s _ _
                (set_mucode-Unmoved p _ s λ m h. ground arith)
                (branch-Unmoved (has_src src && bit_and rm 0x3b == 0x21) s _ _
                  (set_src-Unmoved src _ s)
                  (branch-Unmoved (bit_and rm 0x23 == 0x20) s _ _
                    (set_mucode-Unmoved p _ s λ m h. register-lt rm)
                    (branch-Unmoved (bit_and rm 0x23 == 0x02) s _ _
                      (set_mucode-Unmoved p _ s λ m h. register-lt rm)
                      (branch-Unmoved (bit_and rm 0x23 == 0x01) s _ _
                        (set_mucode-Unmoved p _ s λ m h. register-lt rm)
                        (branch-Unmoved (has_src src && bit_and rm 0x23 == 0x00) s _ _
                          (set_src-Unmoved src _ s) (Unmoved-refl s))))))))))

  pub specifier-Unmoved :
      (s : PilotDecodeState) (rm : ℕ) (is_dest src_is_left : Bool) (size : DataSizeSpec)
      → Ensures (Unmoved s) (decode_rm_specifier ext s rm is_dest src_is_left size)
  unfolding decode_rm_specifier
  specifier-Unmoved s rm is_dest src_is_left size =
      let src = src_affected is_dest src_is_left in
      let s1 = record s { rm_ops = u8 (s.rm_ops + 1) } in
      let s2 = set_src src (λ a. record a { size = size }) s1 in
      let start : Unmoved s s2 =
        Unmoved-trans s s1 s2
          (assigned s s.work_regs s.inst_length s.words_to_read (u8 (s.rm_ops + 1)) s.decoding_phase
            (λ f. f.inst) refl (λ e. e) λ f. (f.length, f.wanted, omega arith))
          (set_src-Unmoved src _ s1) in
      Ensures-bind (λ r. Unmoved s r.0) (Unmoved s)
        (if rm_requires_mem_fetch rm
          then set_up_fetch s2 src is_dest src_is_left size
          else ok (s2, unset_mucode))
        _ (fetched_or-Unmoved (rm_requires_mem_fetch rm) s s2 src is_dest src_is_left size start)
        λ r h.
          from-Unmoved s r.0 _ h
            (then-Unmoved r.0 _ _ (mode-Unmoved rm src r.1 size r.0) λ t. mark-Unmoved r.1 t)
