-- ===== src/Decode/Rm/Specifiers.antt =====
-- pilot-cpu/cpu_decode_rm.c, `rm_requires_mem_fetch_`: the six-bit specifiers and the addressing modes
-- are the same type, and along that identification the test on bits is the property of the modes.
use mathlib.Core.HLevel.{Σ_prop_path}
use mathlib.Core.Path.{PathP, fun_ext, subst}
use native.Mathlib.Bridge.{le_prop}
use hexheld_emu.Decode.Rm.{rm_requires_mem_fetch}
use hexheld_emu.Decode.Rm.Modes.{
  AddressMode, IsMode, encode, encode-mode_of, in_memory, mode_of, post_increment, pre_decrement,
  register_direct, register_indirect, register_relative, rm_requires_mem_fetch-in_memory,
  short_immediate, special_mode,
}
use hexheld_emu.Prelude.{
  Bool, arith, below_16, below_8, false, if◌then◌else◌, leb, refl, suc, sym, true, zero, ℕ, ◌%◌,
  ◌/◌, ◌<◌, ◌==◌, ◌≡◌,
}
use std.Equiv.{iso_to_equiv, ◌≃◌}
use std.Univalence.{ua}

abbrev pub Specifier : Type 0
Specifier = (rm : ℕ) × (rm < 64)

abbrev pub Mode : Type 0
Mode = (mode : AddressMode) × IsMode mode

IsMode-prop : (mode : AddressMode) → IsProp (IsMode mode)
IsMode-prop (register_direct r) = le_prop
IsMode-prop (register_indirect r) = le_prop
IsMode-prop (register_relative r) = le_prop
IsMode-prop (post_increment r) = le_prop
IsMode-prop (pre_decrement r) = le_prop
IsMode-prop (short_immediate v) = le_prop
IsMode-prop _ = λ a b. refl

IsMode-branch : (b : Bool) (m n : AddressMode) → IsMode m → IsMode n → IsMode (if b then m else n)
IsMode-branch true m n h k = h
IsMode-branch false m n h k = k

IsMode-special_mode : (n : ℕ) → IsMode (special_mode n)
unfolding special_mode
IsMode-special_mode zero = tt
IsMode-special_mode (suc zero) = tt
IsMode-special_mode (suc (suc zero)) = tt
IsMode-special_mode (suc (suc (suc zero))) = tt
IsMode-special_mode (suc (suc (suc (suc zero)))) = tt
IsMode-special_mode (suc (suc (suc (suc (suc zero))))) = tt
IsMode-special_mode (suc (suc (suc (suc (suc (suc zero)))))) = tt
IsMode-special_mode (suc (suc (suc (suc (suc (suc (suc n))))))) = tt

-- The mode of a specifier is one.
IsMode-mode_of : (rm : ℕ) → rm < 64 → IsMode (mode_of rm)
unfolding mode_of
IsMode-mode_of rm h =
    let reg : rm / 4 % 8 < 8 = omega arith in
    let value : rm / 4 < 16 = omega arith in
    let high = leb 32 rm in
    IsMode-branch (rm % 4 == 3) _ _ value (
      IsMode-branch (rm % 4 == 0) _ _ (IsMode-branch high _ _ reg reg) (
        IsMode-branch (rm % 4 == 2) _ _ (IsMode-branch high _ _ reg reg)
          (IsMode-branch high _ _ (IsMode-special_mode (rm / 4 % 8)) reg)))

pub encode-lt : (mode : AddressMode) → IsMode mode → encode mode < 64
encode-lt (register_direct r) h = omega arith
encode-lt (register_indirect r) h = omega arith
encode-lt (register_relative r) h = omega arith
encode-lt (post_increment r) h = omega arith
encode-lt (pre_decrement r) h = omega arith
encode-lt (short_immediate v) h = omega arith
encode-lt _ h = omega arith

mode_of-encode : (mode : AddressMode) → IsMode mode → mode_of (encode mode) ≡ mode
unfolding mode_of special_mode
mode_of-encode (register_direct r) h =
    below_8 (λ k. mode_of (encode (register_direct k)) ≡ register_direct k) refl refl refl refl refl
      refl refl refl r h
mode_of-encode (register_indirect r) h =
    below_8 (λ k. mode_of (encode (register_indirect k)) ≡ register_indirect k) refl refl refl refl
      refl refl refl refl r h
mode_of-encode (register_relative r) h =
    below_8 (λ k. mode_of (encode (register_relative k)) ≡ register_relative k) refl refl refl refl
      refl refl refl refl r h
mode_of-encode (post_increment r) h =
    below_8 (λ k. mode_of (encode (post_increment k)) ≡ post_increment k) refl refl refl refl refl
      refl refl refl r h
mode_of-encode (pre_decrement r) h =
    below_8 (λ k. mode_of (encode (pre_decrement k)) ≡ pre_decrement k) refl refl refl refl refl
      refl refl refl r h
mode_of-encode (short_immediate v) h =
    below_16 (λ k. mode_of (encode (short_immediate k)) ≡ short_immediate k) refl refl refl refl
      refl refl refl refl refl refl refl refl refl refl refl refl v h
mode_of-encode _ h = refl

-- Each specifier is that of one mode, and each mode has one specifier.
pub specifier_mode : Specifier ≃ Mode
specifier_mode = iso_to_equiv (record {
  fun = λ s. (mode_of s.0, IsMode-mode_of s.0 s.1);
  inv = λ m. (encode m.0, encode-lt m.0 m.1);
  rinv = λ m. Σ_prop_path IsMode-prop (mode_of-encode m.0 m.1);
  linv = λ s. Σ_prop_path (λ rm. le_prop) (encode-mode_of s.0 s.1);
})

-- A function of the first type that is one of the second through the equivalence.
along :
    {A B : Type 0} (e : A ≃ B) (f : A → Bool) (g : B → Bool)
    → ((a : A) → f a ≡ g (e.0 a))
    → PathP (λ i. ua e i → Bool) f g
along e f g h =
    subst (λ f. PathP (λ i. ua e i → Bool) f g) (sym (fun_ext h)) (λ i x. g (vproj i x e))

-- The specifiers below 64 and the addressing modes are one type, since each specifier encodes
-- exactly one mode and each mode has exactly one specifier; and along this identification the test
-- of the decoder for a memory operand, on the bits of the specifier, is the property of the modes
-- to be in memory.
pub rm_requires_mem_fetch-along_modes :
    PathP (λ i. ua specifier_mode i → Bool) (λ s. rm_requires_mem_fetch s.0) (λ m. in_memory m.0)
unfolding specifier_mode
rm_requires_mem_fetch-along_modes =
    along specifier_mode _ _ λ s. rm_requires_mem_fetch-in_memory s.0 s.1
