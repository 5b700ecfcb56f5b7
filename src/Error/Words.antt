-- ===== src/Error/Words.antt =====
-- The flags of an error as binary digits of its word.
use mach_ports_rs.Prelude.{
  ℕ, ◌+◌, ◌*◌, ◌/◌, ◌%◌, ◌^◌, ◌<◌, ◌≡◌, Bool, bit_and, bit_or, ◌==◌, if◌then◌else◌, arith,
}
use mach_ports_rs.Prelude.Bits.{not_word, bit_and_split, bit_and_field, bit_or_digit}
use mach_ports_rs.Error
use mach_ports_rs.Error.{Masks, MsgError}

-- The values that mach/message.h documents.
pub record IsDarwinMasks (m : Masks) : Type 0 where
  pub mask : m.mask ≡ 0x3e00
  pub vm_space : m.vm_space ≡ 0x1000
  pub vm_kernel : m.vm_kernel ≡ 0x400
  pub ipc_space : m.ipc_space ≡ 0x2000
  pub ipc_kernel : m.ipc_kernel ≡ 0x800

pub data Flag : Type 0 where
  vm_space vm_kernel ipc_space ipc_kernel : Flag

abbrev pub weight : Flag → ℕ
weight vm_space = 0x1000
weight vm_kernel = 0x400
weight ipc_space = 0x2000
weight ipc_kernel = 0x800

abbrev pub same : Flag → Flag → Bool
same f g = weight f == weight g

module _ (m : Masks) where
  -- The methods of each flag.
  abbrev pub get : Flag → MsgError → Bool
  get vm_space = Error.vm_space m
  get vm_kernel = Error.vm_kernel m
  get ipc_space = Error.ipc_space m
  get ipc_kernel = Error.ipc_kernel m

  abbrev pub set : Flag → MsgError → Bool → MsgError
  set vm_space = Error.set_vm_space m
  set vm_kernel = Error.set_vm_kernel m
  set ipc_space = Error.set_ipc_space m
  set ipc_kernel = Error.set_ipc_kernel m

and_ipc_space : (x : ℕ) → x < 2 ^ 32 → bit_and x 8192 ≡ x / 8192 % 2 * 8192
and_ipc_space x h = ground (arith, bit_and_field 13 1 (x / 16384) (x / 8192 % 2) (x % 8192))

or_ipc_space : (x : ℕ) → x < 2 ^ 32 → bit_or x 8192 ≡ x / 16384 * 16384 + 8192 + x % 8192
or_ipc_space x h = ground (arith, bit_or_digit 13 (x / 16384) (x / 8192 % 2) (x % 8192))

not_ipc_space : (x : ℕ) → x < 2 ^ 32 → bit_and x (not_word 8192) ≡ x / 16384 * 16384 + x % 8192
not_ipc_space x h = ground (
  arith,
  bit_and_split 14 (x / 16384) (x % 16384) 262143 8191,
  bit_and_field 0 18 0 (x / 16384) 0,
  bit_and_field 0 13 (x / 8192 % 2) (x % 8192) 0,
)

and_vm_space : (x : ℕ) → x < 2 ^ 32 → bit_and x 4096 ≡ x / 4096 % 2 * 4096
and_vm_space x h = ground (arith, bit_and_field 12 1 (x / 8192) (x / 4096 % 2) (x % 4096))

or_vm_space : (x : ℕ) → x < 2 ^ 32 → bit_or x 4096 ≡ x / 8192 * 8192 + 4096 + x % 4096
or_vm_space x h = ground (arith, bit_or_digit 12 (x / 8192) (x / 4096 % 2) (x % 4096))

not_vm_space : (x : ℕ) → x < 2 ^ 32 → bit_and x (not_word 4096) ≡ x / 8192 * 8192 + x % 4096
not_vm_space x h = ground (
  arith,
  bit_and_split 13 (x / 8192) (x % 8192) 524287 4095,
  bit_and_field 0 19 0 (x / 8192) 0,
  bit_and_field 0 12 (x / 4096 % 2) (x % 4096) 0,
)

and_ipc_kernel : (x : ℕ) → x < 2 ^ 32 → bit_and x 2048 ≡ x / 2048 % 2 * 2048
and_ipc_kernel x h = ground (arith, bit_and_field 11 1 (x / 4096) (x / 2048 % 2) (x % 2048))

or_ipc_kernel : (x : ℕ) → x < 2 ^ 32 → bit_or x 2048 ≡ x / 4096 * 4096 + 2048 + x % 2048
or_ipc_kernel x h = ground (arith, bit_or_digit 11 (x / 4096) (x / 2048 % 2) (x % 2048))

not_ipc_kernel : (x : ℕ) → x < 2 ^ 32 → bit_and x (not_word 2048) ≡ x / 4096 * 4096 + x % 2048
not_ipc_kernel x h = ground (
  arith,
  bit_and_split 12 (x / 4096) (x % 4096) 1048575 2047,
  bit_and_field 0 20 0 (x / 4096) 0,
  bit_and_field 0 11 (x / 2048 % 2) (x % 2048) 0,
)

and_vm_kernel : (x : ℕ) → x < 2 ^ 32 → bit_and x 1024 ≡ x / 1024 % 2 * 1024
and_vm_kernel x h = ground (arith, bit_and_field 10 1 (x / 2048) (x / 1024 % 2) (x % 1024))

or_vm_kernel : (x : ℕ) → x < 2 ^ 32 → bit_or x 1024 ≡ x / 2048 * 2048 + 1024 + x % 1024
or_vm_kernel x h = ground (arith, bit_or_digit 10 (x / 2048) (x / 1024 % 2) (x % 1024))

not_vm_kernel : (x : ℕ) → x < 2 ^ 32 → bit_and x (not_word 1024) ≡ x / 2048 * 2048 + x % 1024
not_vm_kernel x h = ground (
  arith,
  bit_and_split 11 (x / 2048) (x % 2048) 2097151 1023,
  bit_and_field 0 21 0 (x / 2048) 0,
  bit_and_field 0 10 (x / 1024 % 2) (x % 1024) 0,
)

and_code : (x : ℕ) → x < 2 ^ 32 → bit_and x (not_word 0x3e00) ≡ x / 0x4000 * 0x4000 + x % 512
and_code x h = ground (
  arith,
  bit_and_split 14 (x / 0x4000) (x % 0x4000) 0x3ffff 511,
  bit_and_field 0 18 0 (x / 0x4000) 0,
  bit_and_field 0 9 (x / 512 % 32) (x % 512) 0,
)

module _ {m : Masks} (d : IsDarwinMasks m) where
  pub get_lem : (f : Flag) (e : ℕ) → e < 2 ^ 32 → get m f e ≡ (e / weight f % 2 == 1)
  unfolding Error.vm_space Error.vm_kernel Error.ipc_space Error.ipc_kernel
  get_lem vm_space e h = rw d.vm_space (ground (arith, and_vm_space e))
  get_lem vm_kernel e h = rw d.vm_kernel (ground (arith, and_vm_kernel e))
  get_lem ipc_space e h = rw d.ipc_space (ground (arith, and_ipc_space e))
  get_lem ipc_kernel e h = rw d.ipc_kernel (ground (arith, and_ipc_kernel e))

  pub set_lem :
      (f : Flag) (e : ℕ) (v : Bool)
      → e < 2 ^ 32
      → set m f e v
        ≡ e / (2 * weight f) * (2 * weight f) + (if v then weight f else 0) + e % weight f
  unfolding Error.set_vm_space Error.set_vm_kernel Error.set_ipc_space Error.set_ipc_kernel
  set_lem vm_space e v h = rw d.vm_space (ground (arith, or_vm_space e, not_vm_space e))
  set_lem vm_kernel e v h = rw d.vm_kernel (ground (arith, or_vm_kernel e, not_vm_kernel e))
  set_lem ipc_space e v h = rw d.ipc_space (ground (arith, or_ipc_space e, not_ipc_space e))
  set_lem ipc_kernel e v h = rw d.ipc_kernel (ground (arith, or_ipc_kernel e, not_ipc_kernel e))

  pub set_small : (f : Flag) (e : ℕ) (v : Bool) → e < 2 ^ 32 → set m f e v < 2 ^ 32
  set_small vm_space e v h = ground (arith, set_lem vm_space e v h)
  set_small vm_kernel e v h = ground (arith, set_lem vm_kernel e v h)
  set_small ipc_space e v h = ground (arith, set_lem ipc_space e v h)
  set_small ipc_kernel e v h = ground (arith, set_lem ipc_kernel e v h)

  digits_kept :
      (f g : Flag) (e : ℕ) (v : Bool)
      → e < 2 ^ 32
      → (set m f e v / weight g % 2 == 1) ≡ (if same f g then v else e / weight g % 2 == 1)
  digits_kept ipc_space ipc_space e v h = ground (arith, set_lem ipc_space e v h)
  digits_kept ipc_space vm_space e v h = ground (arith, set_lem ipc_space e v h)
  digits_kept ipc_space ipc_kernel e v h = ground (arith, set_lem ipc_space e v h)
  digits_kept ipc_space vm_kernel e v h = ground (arith, set_lem ipc_space e v h)
  digits_kept vm_space ipc_space e v h = ground (arith, set_lem vm_space e v h)
  digits_kept vm_space vm_space e v h = ground (arith, set_lem vm_space e v h)
  digits_kept vm_space ipc_kernel e v h = ground (arith, set_lem vm_space e v h)
  digits_kept vm_space vm_kernel e v h = ground (arith, set_lem vm_space e v h)
  digits_kept ipc_kernel ipc_space e v h = ground (arith, set_lem ipc_kernel e v h)
  digits_kept ipc_kernel vm_space e v h = ground (arith, set_lem ipc_kernel e v h)
  digits_kept ipc_kernel ipc_kernel e v h = ground (arith, set_lem ipc_kernel e v h)
  digits_kept ipc_kernel vm_kernel e v h = ground (arith, set_lem ipc_kernel e v h)
  digits_kept vm_kernel ipc_space e v h = ground (arith, set_lem vm_kernel e v h)
  digits_kept vm_kernel vm_space e v h = ground (arith, set_lem vm_kernel e v h)
  digits_kept vm_kernel ipc_kernel e v h = ground (arith, set_lem vm_kernel e v h)
  digits_kept vm_kernel vm_kernel e v h = ground (arith, set_lem vm_kernel e v h)

  pub get-set :
      (f g : Flag) (e : ℕ) (v : Bool)
      → e < 2 ^ 32
      → get m g (set m f e v) ≡ (if same f g then v else get m g e)
  get-set f g e v h =
      rw (get_lem g (set m f e v) (set_small f e v h), get_lem g e h) (digits_kept f g e v h)

  pub code_kept :
      (f : Flag) (e : ℕ) (v : Bool)
      → e < 2 ^ 32
      → bit_and (set m f e v) (not_word m.mask) ≡ bit_and e (not_word m.mask)
  code_kept ipc_space e v h =
      rw d.mask
        (ground (arith, and_code e, and_code (set m ipc_space e v), set_lem ipc_space e v h))
  code_kept vm_space e v h =
      rw d.mask (ground (arith, and_code e, and_code (set m vm_space e v), set_lem vm_space e v h))
  code_kept ipc_kernel e v h =
      rw d.mask
        (ground (arith, and_code e, and_code (set m ipc_kernel e v), set_lem ipc_kernel e v h))
  code_kept vm_kernel e v h =
      rw d.mask
        (ground (arith, and_code e, and_code (set m vm_kernel e v), set_lem vm_kernel e v h))
