-- ===== src/Decode/Inst/Branches.antt =====
-- pilot-cpu/cpu_decode.c, `decode_inst_branch_`: which branches of the switch can be taken.
use Prim.Native.Nat.{min}
use hexheld_emu.Bits.{and_law, digit_at}
use hexheld_emu.Decode.{DecodeExterns, PilotDecodeState}
use hexheld_emu.Decode.Inst.{decode_inst_branch}
use hexheld_emu.Prelude.{
  ==_iff, Bool-cases, Outcome, ap, arith, bit_and, false, inl, inr, refl, sym, ℕ, ◌%◌, ◌/◌, ◌==◌,
  ◌^◌, ◌∙◌, ◌≡◌,
}

-- The bit 8 of `a & m`, read off an equation for it.
bit_8 : (a m v : ℕ) → bit_and a m ≡ v → min (a / 2 ^ 8 % 2) (m / 2 ^ 8 % 2) ≡ v / 2 ^ 8 % 2
bit_8 a m v h = sym (digit_at and_law 8 a m) ∙ ap (λ (x : ℕ). x / 2 ^ 8 % 2) h

-- The two nested cases with bit 8 set stand under a test that bit 8 is clear.
dead_case :
    (opcode v : ℕ)
    → v / 2 ^ 8 % 2 ≡ 1
    → bit_and opcode 0x0700 ≡ 0x0200
    → (bit_and opcode 0x01c0 == v) ≡ false
dead_case opcode v hv h = elim (Bool-cases (bit_and opcode 0x01c0 == v)) [
  | inr other ↦ other
  | inl same ↦
      absurd
        (impossible (bit_8 opcode 0x0700 0x0200 h) (bit_8 opcode 0x01c0 v ((==_iff _ _).0 same)))
]
  where
    impossible :
        min (opcode / 2 ^ 8 % 2) (0x0700 / 2 ^ 8 % 2) ≡ 0x0200 / 2 ^ 8 % 2
        → min (opcode / 2 ^ 8 % 2) (0x01c0 / 2 ^ 8 % 2) ≡ v / 2 ^ 8 % 2
        → ⊥
    impossible p q = omega arith

-- No opcode word reaches the cases for CALL rm24 and CEA: whatever the undeclared function does, the
-- result of decoding a branch instruction is the same.
pub decode_inst_branch-call_dead :
    (ext : DecodeExterns) (other : PilotDecodeState → Outcome PilotDecodeState)
    (s : PilotDecodeState) (opcode : ℕ)
    → decode_inst_branch (record ext { not_implemented_undeclared = other }) s opcode
      ≡ decode_inst_branch ext s opcode
unfolding decode_inst_branch
decode_inst_branch-call_dead ext other s opcode =
    ground (arith, dead_case opcode 0x0100 refl, dead_case opcode 0x0140 refl)
