-- ===== src/Decode/Rm/Modes.antt =====
-- pilot-cpu/cpu_decode_rm.c: the addressing modes that the six bits of an RM specifier encode, and
-- the test for a memory access.
use hexheld_emu.Decode.Rm.{rm_requires_mem_fetch}
use hexheld_emu.Prelude.{
  ==_iff, Bool, arith, false, if◌then◌else◌, leb, not, passes, passes_at, refl, suc, true, xor,
  zero, ℕ, ◌%◌, ◌*◌, ◌+◌, ◌/◌, ◌<◌, ◌==◌, ◌≡◌,
}

pub data AddressMode : Type 0 where
  register_direct register_indirect register_relative post_increment pre_decrement : ℕ → AddressMode
  short_immediate : ℕ → AddressMode
  immediate_16 immediate_24 absolute_16 absolute_24 pgc_16 pgc_24 : AddressMode
  register_indexed absolute_indexed : AddressMode

-- The bit pattern of a mode; a register number is below 8, a short immediate has the bits 2 to 5.
abbrev pub encode : AddressMode → ℕ
encode (register_direct reg) = reg * 4
encode (register_relative reg) = reg * 4 + 1
encode (register_indirect reg) = reg * 4 + 2
encode (short_immediate value) = value * 4 + 3
encode (post_increment reg) = reg * 4 + 0x20
encode (pre_decrement reg) = reg * 4 + 0x22
encode immediate_16 = 0x21
encode immediate_24 = 0x25
encode absolute_16 = 0x29
encode absolute_24 = 0x2d
encode pgc_16 = 0x31
encode pgc_24 = 0x35
encode register_indexed = 0x39
encode absolute_indexed = 0x3d

abbrev pub IsMode : AddressMode → Type 0
IsMode (register_direct reg) = reg < 8
IsMode (register_relative reg) = reg < 8
IsMode (register_indirect reg) = reg < 8
IsMode (short_immediate value) = value < 16
IsMode (post_increment reg) = reg < 8
IsMode (pre_decrement reg) = reg < 8
IsMode _ = Unit

-- The operand is in memory.
abbrev pub in_memory : AddressMode → Bool
in_memory (register_direct reg) = false
in_memory (short_immediate value) = false
in_memory immediate_16 = false
in_memory immediate_24 = false
in_memory _ = true

-- The eight subcases of an odd specifier with the top bit.
unfoldable pub special_mode : ℕ → AddressMode
special_mode zero = immediate_16
special_mode (suc zero) = immediate_24
special_mode (suc (suc zero)) = absolute_16
special_mode (suc (suc (suc zero))) = absolute_24
special_mode (suc (suc (suc (suc zero)))) = pgc_16
special_mode (suc (suc (suc (suc (suc zero))))) = pgc_24
special_mode (suc (suc (suc (suc (suc (suc zero)))))) = register_indexed
special_mode _ = absolute_indexed

-- The mode of a specifier, by arithmetic on its fields.
unfoldable pub mode_of : ℕ → AddressMode
unfolding special_mode
mode_of rm =
    let reg = rm / 4 % 8 in
    let high = leb 32 rm in
    let low = rm % 4 in
    if low == 3
    then short_immediate (rm / 4)
    else if low == 0
    then (if high then post_increment reg else register_direct reg)
    else if low == 2
    then (if high then pre_decrement reg else register_indirect reg)
    else if high
    then special_mode reg
    else register_relative reg

-- Every six-bit specifier is the encoding of its mode.
pub encode-mode_of : (rm : ℕ) → rm < 64 → encode (mode_of rm) ≡ rm
encode-mode_of rm h = (==_iff _ rm).0 (passes_at _ rm 64 h table)
  where
    table : passes (λ rm. encode (mode_of rm) == rm) 64 ≡ true
    table = unfold passes mode_of in refl

fetch_table : passes (λ rm. not (xor (rm_requires_mem_fetch rm) (in_memory (mode_of rm)))) 64 ≡ true
unfolding passes xor mode_of rm_requires_mem_fetch
fetch_table = refl

not-xor : (a b : Bool) → not (xor a b) ≡ true → a ≡ b
unfolding xor
not-xor a b h = ground arith

-- The Karnaugh-map test on the bits of a specifier is true exactly for the modes whose operand is in
-- memory.
pub rm_requires_mem_fetch-in_memory :
    (rm : ℕ) → rm < 64 → rm_requires_mem_fetch rm ≡ in_memory (mode_of rm)
rm_requires_mem_fetch-in_memory rm h = not-xor _ _ (passes_at _ rm 64 h fetch_table)
