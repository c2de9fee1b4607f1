-- ===== src/Execute/Write/Merge.antt =====
-- pilot-cpu/cpu_execute.c, `write_data_`: the masks that replace a part of a register, as arithmetic.
use hexheld_emu.Bits.{
  and_law, bit_and-mask, bit_and-shifted, bit_or-fields, bit_or-zero, or_law, split, split_at,
}
use hexheld_emu.Prelude.{arith, bit_and, bit_or, ℕ, ◌%◌, ◌*◌, ◌+◌, ◌/◌, ◌<<<◌, ◌>>>◌, ◌^◌, ◌∙◌, ◌≡◌}

-- `(x & 0xffff00) | (v & 0xff)`.
pub merge_low_byte :
    (x v : ℕ) → bit_or (bit_and x 0xffff00) (bit_and v 0xff) ≡ x / 256 % 65536 * 256 + v % 256
merge_low_byte x v =
    rw (bit_and-mask 8 v, bit_and-shifted 8 0xffff x, bit_and-mask 16 (x / 2 ^ 8))
      (bit_or-fields 8 (x / 2 ^ 8 % 2 ^ 16) (v % 2 ^ 8) (omega arith))

keep_outer : (x : ℕ) → bit_and x 0xff00ff ≡ x / 65536 % 256 * 256 * 256 + x % 256
keep_outer x = omega (
  arith,
  split_at and_law 8 x 0xff00ff,
  bit_and-shifted 8 0xff (x / 256),
  bit_and-mask 8 (x / 256 / 256),
  bit_and-mask 8 (x % 256),
)

-- `(x & 0xff00ff) | ((v & 0xff) << 8)`.
pub merge_high_byte :
    (x v : ℕ)
    → bit_or (bit_and x 0xff00ff) (bit_and v 0xff <<< 8)
      ≡ x / 65536 % 256 * 65536 + v % 256 * 256 + x % 256
merge_high_byte x v =
    rw (keep_outer x, bit_and-mask 8 v)
      (ground (
        arith,
        split or_law 8 (x / 65536 % 256 * 256) (x % 256) (v % 256) 0 (omega arith) (omega arith),
        bit_or-fields 8 (x / 65536 % 256) (v % 256) (omega arith),
        bit_or-zero (x % 256),
      ))

-- `(x & 0xff0000) | (v & 0xffff)`.
pub merge_word :
    (x v : ℕ) → bit_or (bit_and x 0xff0000) (bit_and v 0xffff) ≡ x / 65536 % 256 * 65536 + v % 65536
merge_word x v =
    rw (bit_and-mask 16 v, bit_and-shifted 16 0xff x, bit_and-mask 8 (x / 2 ^ 16))
      (bit_or-fields 16 (x / 2 ^ 16 % 2 ^ 8) (v % 2 ^ 16) (omega arith))

-- The three parts of a register, as the bus reads them.
pub record HasParts (y low high upper : ℕ) : Type 0 where
  pub low_read : bit_and y 0xff ≡ low
  pub high_read : bit_and (y >>> 8) 0xff ≡ high
  pub upper_kept : y / 65536 % 256 ≡ upper

parts_of :
    (y z low high upper : ℕ)
    → y ≡ z
    → (z % 256 ≡ low) × (z / 256 % 256 ≡ high) × (z / 65536 % 256 ≡ upper)
    → HasParts y low high upper
parts_of y z low high upper e h = record {
  low_read = bit_and-mask 8 y ∙ rw e h.0;
  high_read = bit_and-mask 8 (y / 256) ∙ rw e h.1;
  upper_kept = rw e h.2;
}

pub low_byte_parts :
    (x v : ℕ)
    → HasParts
        (bit_or (bit_and x 0xffff00) (bit_and v 0xff))
        (v % 256)
        (x / 256 % 256)
        (x / 65536 % 256)
low_byte_parts x v = parts_of _ _ _ _ _ (merge_low_byte x v) (omega arith)

pub high_byte_parts :
    (x v : ℕ)
    → HasParts
        (bit_or (bit_and x 0xff00ff) (bit_and v 0xff <<< 8))
        (x % 256)
        (v % 256)
        (x / 65536 % 256)
high_byte_parts x v = parts_of _ _ _ _ _ (merge_high_byte x v) (omega arith)

pub word_parts :
    (x v : ℕ)
    → HasParts
        (bit_or (bit_and x 0xff0000) (bit_and v 0xffff))
        (v % 256)
        (v / 256 % 256)
        (x / 65536 % 256)
word_parts x v = parts_of _ _ _ _ _ (merge_word x v) (omega arith)
