-- ===== src/MsgBits.antt =====
-- `MachMsgBits` of msg/mod.rs: the bits of a message header, read and written by masks.
pub mod Words
pub mod Fields
use mach_ports_rs.Prelude.{
  ℕ, ◌*◌, ◌/◌, ◌%◌, ◌^◌, bit_and, bit_or, Bool, Outcome, ok, ◌>>◌, assert, ◌==◌, if◌then◌else◌,
}
use mach_ports_rs.Prelude.Bits.{not_word}
use mach_ports_rs.Abi.{Platform}

-- `struct MachMsgBits(mach_msg_bits_t)`, a `u32`.
abbrev pub MachMsgBits : Type 0
MachMsgBits = ℕ

abbrev shl : ℕ → ℕ → ℕ
shl x k = x * 2 ^ k % 2 ^ 32

abbrev shr : ℕ → ℕ → ℕ
shr x k = x / 2 ^ k

module _ (p : Platform) where
  unfoldable pub new : Bool → (remote local voucher : ℕ) → Outcome MachMsgBits
  new complex remote local voucher = do
    assert (remote == bit_and remote p.msgh_bits_remote_mask)
    assert (local == bit_and local p.msgh_bits_remote_mask)
    assert (voucher == bit_and voucher p.msgh_bits_remote_mask)
    let port_bits = bit_or (bit_or remote (shl local 8)) (shl voucher 16)
    if complex then ok (bit_or port_bits p.msgh_bits_complex) else ok port_bits

  unfoldable pub from_bits : ℕ → Outcome MachMsgBits
  from_bits value = do assert (value == bit_and value p.msgh_bits_user); ok value

  unfoldable pub remote : MachMsgBits → ℕ
  remote bits = bit_and bits p.msgh_bits_remote_mask

  unfoldable pub set_remote : MachMsgBits → ℕ → Outcome MachMsgBits
  set_remote bits r = do
    assert (r == bit_and r p.msgh_bits_remote_mask)
    ok (bit_or (bit_and bits (not_word p.msgh_bits_remote_mask)) r)

  unfoldable pub local : MachMsgBits → ℕ
  local bits = shr (bit_and bits p.msgh_bits_local_mask) 8

  unfoldable pub set_local : MachMsgBits → ℕ → Outcome MachMsgBits
  set_local bits l = do
    assert (l == bit_and l p.msgh_bits_remote_mask)
    ok (bit_or (bit_and bits (not_word p.msgh_bits_local_mask)) (shl l 8))

  unfoldable pub voucher : MachMsgBits → ℕ
  voucher bits = shr (bit_and bits p.msgh_bits_voucher_mask) 16

  unfoldable pub complex : MachMsgBits → Bool
  complex bits = bit_and bits p.msgh_bits_complex == p.msgh_bits_complex

  unfoldable pub into_complex : MachMsgBits → MachMsgBits
  into_complex bits = bit_or bits p.msgh_bits_complex
