-- ===== src/Decode/Widths/Inst.antt =====
-- pilot-cpu/cpu_decode.c: the widths through the groups of instructions.
use hexheld_emu.Decode.{DecodeExterns, PilotDecodeState, set_core}
use hexheld_emu.Decode.Inst.{
  arithmetic_imm, arithmetic_operation, arithmetic_rm, decode_inst, decode_inst_arithlogic,
  decode_inst_bit, decode_inst_branch, decode_inst_ld_group, decode_inst_ld_other,
  decode_inst_other, immediate_operation, ld_one_rm, ld_two_rm, opcode_size, operate,
  operation_code,
}
use hexheld_emu.Decode.Widths.{
  LeavesMachine, Unmoved, Unmoved-refl, Unmoved-trans, assigned, branch-Unmoved, choice-Unmoved,
  core-Unmoved, from-Unmoved, then-Unmoved,
}
use hexheld_emu.Decode.Widths.Rm.{specifier-Unmoved}
use hexheld_emu.Prelude.{
  Bool, Ensures, Ensures-bind, Ensures-weaken, Outcome, arith, bit_and, false, if◌then◌else◌, leb,
  not, ok, refl, true, ℕ, ◌&&◌, ◌<◌, ◌==◌, ◌>>=◌, ◌>>>◌, ◌^◌, ◌||◌,
}
use hexheld_emu.Types.{AluOperation, DataSizeSpec, data_reg_imm_0_8, size_24_bit}

module _ (ext : DecodeExterns) (leaves : LeavesMachine ext) where
  branch_group-Unmoved :
      (s : PilotDecodeState) (opcode : ℕ) → Ensures (Unmoved s) (decode_inst_branch ext s opcode)
  unfolding decode_inst_branch
  branch_group-Unmoved s opcode =
      let stub = leaves.not_implemented s in
      let bad = leaves.invalid s in
      let call = leaves.undeclared s in
      branch-Unmoved (bit_and opcode 0xff00 == 0xff00) s _ _ stub (
        branch-Unmoved (bit_and opcode 0xffe0 == 0xfe00) s _ _ stub (
          branch-Unmoved (bit_and opcode 0xf800 == 0xf000) s _ _
            (branch-Unmoved (bit_and opcode 0xff == 0) s _ _ stub
              (branch-Unmoved (not (bit_and opcode 0x80 == 0)) s _ _ stub bad))
            (branch-Unmoved (bit_and opcode 0x0700 == 0x0000) s _ _ stub (
              branch-Unmoved (bit_and opcode 0x0700 == 0x0100) s _ _ stub (
                branch-Unmoved (bit_and opcode 0x0700 == 0x0200) s _ _
                  (branch-Unmoved (bit_and opcode 0x01c0 == 0x0000) s _ _ stub (
                    branch-Unmoved (bit_and opcode 0x01c0 == 0x0040) s _ _ stub (
                      branch-Unmoved (bit_and opcode 0x01c0 == 0x0100) s _ _ call
                        (branch-Unmoved (bit_and opcode 0x01c0 == 0x0140) s _ _ call bad))))
                  bad)))))

  operate-Unmoved :
      (op : AluOperation) (carry negate : Bool) (mask : ℕ) (s : PilotDecodeState)
      → mask < 2 ^ 8
      → Unmoved s (operate op carry negate mask s)
  operate-Unmoved op carry negate mask s small = core-Unmoved s _ refl (λ e. e) (λ m. small)

  immediate-Unmoved :
      (op : ℕ) (s : PilotDecodeState) → Ensures (Unmoved s) (immediate_operation ext op s)
  unfolding immediate_operation
  immediate-Unmoved op s =
      branch-Unmoved (leb op 3) s _ _ (operate-Unmoved _ _ _ _ s (omega arith)) (
        branch-Unmoved (op == 4) s _ _ (operate-Unmoved _ _ _ _ s (omega arith)) (
          branch-Unmoved (op == 5) s _ _ (operate-Unmoved _ _ _ _ s (omega arith)) (
            branch-Unmoved (op == 6) s _ _ (operate-Unmoved _ _ _ _ s (omega arith)) (
              branch-Unmoved (op == 7) s _ _ (operate-Unmoved _ _ _ _ s (omega arith))
                (leaves.unreachable s)))))

  -- The switch that also yields two numbers.
  abbrev Switched : PilotDecodeState → Outcome (PilotDecodeState × Bool × ℕ) → Type 0
  Switched s m = Ensures (λ (r : PilotDecodeState × Bool × ℕ). Unmoved s r.0) m

  switch :
      (b : Bool) (s : PilotDecodeState) (m n : Outcome (PilotDecodeState × Bool × ℕ))
      → Switched s m
      → Switched s n
      → Switched s (if b then m else n)
  switch true s m n h k = h
  switch false s m n h k = k

  switched :
      (s : PilotDecodeState) (m : Outcome PilotDecodeState) (uses_imm : Bool) (op : ℕ)
      → Ensures (Unmoved s) m
      → Switched s (m >>= λ t. ok (t, uses_imm, op))
  switched s m uses_imm op h =
      Ensures-bind (Unmoved s) (λ (r : PilotDecodeState × Bool × ℕ). Unmoved s r.0) m _ h λ t k. k

  operation-Switched :
      (opcode op : ℕ) (s : PilotDecodeState) → Switched s (arithmetic_operation ext opcode op s)
  unfolding arithmetic_operation
  operation-Switched opcode op s =
      let inner = bit_and opcode 0x0700 >>> 8 in
      switch (leb op 3 || (leb 8 op && leb op 11)) s _ _ (operate-Unmoved _ _ _ _ s (omega arith)) (
        switch (op == 4 || op == 12) s _ _ (operate-Unmoved _ _ _ _ s (omega arith)) (
          switch (op == 5 || op == 13) s _ _ (operate-Unmoved _ _ _ _ s (omega arith)) (
            switch (op == 6 || op == 14) s _ _ (operate-Unmoved _ _ _ _ s (omega arith)) (
              switch (op == 7) s _ _ (operate-Unmoved _ _ _ _ s (omega arith)) (
                switch (op == 15) s _ _
                  (Ensures-bind (Unmoved s) (λ (r : PilotDecodeState × Bool × ℕ). Unmoved s r.0)
                    (immediate_operation ext inner s) _ (immediate-Unmoved inner s)
                    λ t h.
                      Ensures-weaken (λ (r : PilotDecodeState × Bool × ℕ). Unmoved t r.0)
                        (λ r. Unmoved s r.0) _
                        (switched t (ext.unreachable t) true inner (leaves.unreachable t))
                        λ r k. Unmoved-trans s t r.0 h k)
                  (switched s (ext.unreachable s) false op (leaves.unreachable s)))))))

  rm_form-Unmoved :
      (s : PilotDecodeState) (opcode : ℕ) (size : DataSizeSpec)
      → Ensures (Unmoved s) (arithmetic_rm ext s opcode size)
  unfolding arithmetic_rm
  rm_form-Unmoved s opcode size =
      then-Unmoved s _ _ (specifier-Unmoved ext leaves s (bit_and opcode 0x003f) false false size)
        λ t. core-Unmoved t _ refl (λ e. e) (λ m. m)

  imm_form-Unmoved :
      (s : PilotDecodeState) (opcode op : ℕ) (size : DataSizeSpec)
      → Ensures (Unmoved s) (arithmetic_imm ext s opcode op size)
  unfolding arithmetic_imm
  imm_form-Unmoved s opcode op size =
      then-Unmoved s _ _ (specifier-Unmoved ext leaves s (bit_and opcode 0x003f) true true size)
        λ t. core-Unmoved t _ refl (λ e. e) (λ m. m)

  arithlogic-Unmoved :
      (s : PilotDecodeState) (opcode : ℕ)
      → Ensures (Unmoved s) (decode_inst_arithlogic ext s opcode)
  unfolding decode_inst_arithlogic
  arithlogic-Unmoved s opcode =
      let size = opcode_size opcode in
      from-Unmoved s _ _ (core-Unmoved s _ refl (λ e. e) (λ m. m)) (
        Ensures-bind (λ (r : PilotDecodeState × Bool × ℕ). Unmoved _ r.0) (Unmoved _)
          (arithmetic_operation ext opcode (operation_code opcode) _) _
          (operation-Switched opcode (operation_code opcode) _)
          λ r h. from-Unmoved _ r.0 _ h (
            branch-Unmoved (not r.1) r.0 _ _ (rm_form-Unmoved r.0 opcode size)
              (imm_form-Unmoved r.0 opcode r.2 size)))

  ld_other-Unmoved :
      (s : PilotDecodeState) (opcode : ℕ) → Ensures (Unmoved s) (decode_inst_ld_other ext s opcode)
  unfolding decode_inst_ld_other
  ld_other-Unmoved s opcode =
      branch-Unmoved (bit_and opcode 0x0800 == 0x0000) s _ _
        (core-Unmoved s _ refl (λ e. e) (λ m. omega arith))
        (core-Unmoved s _ refl (λ e. e) (λ m. omega arith))

  one_rm-Unmoved :
      (s : PilotDecodeState) (opcode : ℕ) (size : DataSizeSpec)
      → Ensures (Unmoved s) (ld_one_rm ext s opcode size)
  unfolding ld_one_rm
  one_rm-Unmoved s opcode size =
      let s1 =
        set_core
          (λ c. record c { src0 = record c.src0 { size = size_24_bit }; dest = data_reg_imm_0_8 })
          s in
      let s2 =
        if bit_and opcode 0x8800 == 0x0800
        then set_core (λ c. record c { src1 = record c.src1 { sign_extend = true } }) s1
        else s1 in
      from-Unmoved s s1 _ (core-Unmoved s _ refl (λ e. e) (λ m. m)) (
        from-Unmoved s1 s2 _
          (choice-Unmoved (bit_and opcode 0x8800 == 0x0800) s1 _ s1
            (core-Unmoved s1 _ refl (λ e. e) (λ m. m)) (Unmoved-refl s1))
          (then-Unmoved s2 _ _
            (branch-Unmoved (bit_and opcode 0xf800 == 0x9800) s2 _ _
              (specifier-Unmoved ext leaves s2 _ true false size) (Unmoved-refl s2))
            λ t. specifier-Unmoved ext leaves t (bit_and opcode 0x3f) false false size))

  two_rm-Unmoved :
      (s : PilotDecodeState) (opcode : ℕ) (size : DataSizeSpec)
      → Ensures (Unmoved s) (ld_two_rm ext s opcode size)
  unfolding ld_two_rm
  two_rm-Unmoved s opcode size =
      then-Unmoved s _ _ (specifier-Unmoved ext leaves s (bit_and opcode 0x3f) false false size)
        λ t. specifier-Unmoved ext leaves t (bit_and (opcode >>> 6) 0x3f) true false size

  ld_group-Unmoved :
      (s : PilotDecodeState) (opcode : ℕ) → Ensures (Unmoved s) (decode_inst_ld_group ext s opcode)
  unfolding decode_inst_ld_group
  ld_group-Unmoved s opcode =
      let size = opcode_size opcode in
      from-Unmoved s _ _ (core-Unmoved s _ refl (λ e. e) (λ m. omega arith)) (
        branch-Unmoved (bit_and opcode 0x00c0 == 0x00c0) _ _ _ (one_rm-Unmoved _ opcode size)
          (two_rm-Unmoved _ opcode size))

  stub-Unmoved :
      (s : PilotDecodeState) (opcode : ℕ)
      → Ensures (Unmoved s) (decode_inst_bit ext s opcode)
        × Ensures (Unmoved s) (decode_inst_other ext s opcode)
  unfolding decode_inst_bit decode_inst_other
  stub-Unmoved s opcode = (leaves.not_implemented s, leaves.not_implemented s)

  -- The dispatch.
  pub decode_inst-Unmoved : (s : PilotDecodeState) → Ensures (Unmoved s) (decode_inst ext s)
  unfolding decode_inst
  decode_inst-Unmoved s =
      let s1 = record s { rm_ops = 0 } in
      let opcode = s.work_regs.imm_words 0 in
      from-Unmoved s s1 _
        (assigned s s.work_regs s.inst_length s.words_to_read 0 s.decoding_phase (λ f. f.inst) refl
          (λ e. e) λ f. (f.length, f.wanted, omega arith))
        (branch-Unmoved (leb 0xe000 (bit_and opcode 0xf000)) s1 _ _ (branch_group-Unmoved s1 opcode)
          (branch-Unmoved (bit_and opcode 0xf000 == 0xd000) s1 _ _ (stub-Unmoved s1 opcode).0 (
            branch-Unmoved (bit_and opcode 0xf000 == 0xc000) s1 _ _ (ld_other-Unmoved s1 opcode) (
              branch-Unmoved (bit_and opcode 0x2000 == 0x2000) s1 _ _ (arithlogic-Unmoved s1 opcode)
                (branch-Unmoved (bit_and opcode 0x3000 == 0x1000) s1 _ _
                  (ld_group-Unmoved s1 opcode)
                  (branch-Unmoved (bit_and opcode 0x3000 == 0x0000) s1 _ _
                    (stub-Unmoved s1 opcode).1 (Unmoved-refl s1)))))))
