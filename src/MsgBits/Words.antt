-- ===== src/MsgBits/Words.antt =====
-- The masks of `MachMsgBits`, as arithmetic on a `u32` cut into its fields.
use mach_ports_rs.Prelude.{ℕ, ◌+◌, ◌*◌, ◌/◌, ◌%◌, ◌^◌, ◌<◌, bit_and, bit_or, ◌≡◌, arith}
use mach_ports_rs.Prelude.Bits.{not_word, bit_and_field, bit_or_field, bit_and_split, bit_or_split}

-- A mask of `w` ones at bit `k`, at the widths that the header uses.
pub and_remote : (x : ℕ) → x < 2 ^ 32 → bit_and x 0x1f ≡ x % 32
and_remote x h = ground (arith, bit_and_field 0 5 (x / 32) (x % 32) 0)

pub and_local : (x : ℕ) → x < 2 ^ 32 → bit_and x 0x1f00 ≡ x / 256 % 32 * 256
and_local x h = ground (arith, bit_and_field 8 5 (x / 8192) (x / 256 % 32) (x % 256))

pub and_voucher : (x : ℕ) → x < 2 ^ 32 → bit_and x 0x1f0000 ≡ x / 65536 % 32 * 65536
and_voucher x h = ground (arith, bit_and_field 16 5 (x / 2097152) (x / 65536 % 32) (x % 65536))

pub and_complex : (x : ℕ) → x < 2 ^ 32 → bit_and x 0x80000000 ≡ x / 2 ^ 31 * 2 ^ 31
and_complex x h = ground (arith, bit_and_field 31 1 0 (x / 2 ^ 31) (x % 2 ^ 31))

pub and_not_remote : (x : ℕ) → x < 2 ^ 32 → bit_and x (not_word 0x1f) ≡ x / 32 * 32
and_not_remote x h = ground (arith, bit_and_field 5 27 0 (x / 32) (x % 32))

pub and_not_local : (x : ℕ) → x < 2 ^ 32 → bit_and x (not_word 0x1f00) ≡ x / 8192 * 8192 + x % 256
and_not_local x h = ground (
  arith,
  bit_and_split 8 (x / 256) (x % 256) 0xffffe0 0xff,
  bit_and_field 5 19 0 (x / 8192) (x / 256 % 32),
  bit_and_field 0 8 0 (x % 256) 0,
)

pub and_user :
    (x : ℕ)
    → x < 2 ^ 32
    → bit_and x 0x801f1f1f
      ≡ x / 2 ^ 31 * 2 ^ 31 + x / 65536 % 32 * 65536 + x / 256 % 32 * 256 + x % 32
and_user x h = ground (
  arith,
  bit_and_split 16 (x / 65536) (x % 65536) 0x801f 0x1f1f,
  bit_and_split 8 (x / 2 ^ 24) (x / 65536 % 256) 0x80 0x1f,
  bit_and_split 8 (x / 256 % 256) (x % 256) 0x1f 0x1f,
  bit_and_field 7 1 0 (x / 2 ^ 31) (x / 2 ^ 24 % 128),
  bit_and_field 0 5 (x / 65536 % 256 / 32) (x / 65536 % 32) 0,
  bit_and_field 0 5 (x / 256 % 256 / 32) (x / 256 % 32) 0,
  bit_and_field 0 5 (x % 256 / 32) (x % 32) 0,
)

-- A field is put into a word that is zero there.
pub or_remote : (x r : ℕ) → x < 2 ^ 27 → r < 32 → bit_or (x * 32) r ≡ x * 32 + r
or_remote x r hx hr = ground (arith, bit_or_field 0 5 x r 0)

pub or_local :
    (x l r : ℕ)
    → x < 2 ^ 19
    → l < 32
    → r < 256
    → bit_or (x * 8192 + r) (l * 256) ≡ x * 8192 + l * 256 + r
or_local x l r hx hl hr = ground (arith, bit_or_field 8 5 x l r)

pub or_voucher : (v r : ℕ) → v < 32 → r < 65536 → bit_or r (v * 65536) ≡ v * 65536 + r
or_voucher v r hv hr = ground (arith, bit_or_field 16 5 0 v r)

pub or_complex : (r : ℕ) → r < 2 ^ 31 → bit_or r 0x80000000 ≡ 2 ^ 31 + r
or_complex r hr = ground (arith, bit_or_field 31 1 0 1 r)

pub or_complex_again : (r : ℕ) → r < 2 ^ 31 → bit_or (2 ^ 31 + r) 0x80000000 ≡ 2 ^ 31 + r
or_complex_again r hr = ground (arith, bit_or_split 31 1 r 1 0, bit_or_field 31 1 0 0 r)
