-- ===== src/Desc.antt =====
-- The descriptors of a message: their layout, which mach2 declares, and `next_desc_impl` of
-- msg/parser.rs, which reads the next one from a buffer.
pub mod Read
pub mod Safe
pub mod References
use mach_ports_rs.Prelude.{
  ℕ, ◌+◌, ◌-◌, ◌%◌, ◌<◌, ◌≡◌, Bool, List, length, take, ltb, leb, ◌==◌, if◌then◌else◌, Outcome, ok,
  panic, ◌>>=◌, ◌>>◌, assert, debug_assert, unwrap, access, sub_word, try_into,
}
use mach_ports_rs.Abi.{Platform}
use mach_ports_rs.Buffer.{Buffer, bytes_of, slice_to, slice_from, body}

-- `mach_msg_port_descriptor_t`, less its padding
pub record PortDesc : Type 0 where
  pub name : ℕ
  pub disposition : ℕ
  pub type_ : ℕ

-- `mach_msg_ool_descriptor_t`, less its padding
pub record OolDesc : Type 0 where
  pub address : ℕ
  pub deallocate : ℕ
  pub copy : ℕ
  pub type_ : ℕ
  pub size : ℕ

-- The two structures as bytes: what `anything_as_bytes` and `anything_from_bytes` see, and the
-- constructors that mach2 gives them.
pub record Layout : Type 0 where
  pub port_new : (name disposition : ℕ) → PortDesc
  pub ool_new : (address : ℕ) (deallocate : Bool) (copy size : ℕ) → OolDesc
  pub port_bytes : PortDesc → List ℕ
  pub port_of : List ℕ → PortDesc
  pub ool_bytes : OolDesc → List ℕ
  pub ool_of : List ℕ → OolDesc

-- The fields are within the widths of the structure.
pub record PortFits (d : PortDesc) : Type 0 where
  pub name : d.name < 0x100000000
  pub disposition : d.disposition < 256
  pub type_ : d.type_ < 256

pub record OolFits (d : OolDesc) : Type 0 where
  pub address : d.address < 0x10000000000000000
  pub deallocate : d.deallocate < 256
  pub copy : d.copy < 256
  pub type_ : d.type_ < 256
  pub size : d.size < 0x100000000

-- What mach/message.h documents of them: the sizes, that the bytes give the fields back, and that
-- the type stands at the same place in both.
pub record IsLayout (p : Platform) (l : Layout) : Type 0 where
  pub port_size : (d : PortDesc) → length (l.port_bytes d) ≡ p.port_descriptor_size
  pub ool_size : (d : OolDesc) → length (l.ool_bytes d) ≡ p.ool_descriptor_size
  pub port_of-port_bytes : (d : PortDesc) → PortFits d → l.port_of (l.port_bytes d) ≡ d
  pub ool_of-ool_bytes : (d : OolDesc) → OolFits d → l.ool_of (l.ool_bytes d) ≡ d
  pub type_shared :
      (d : OolDesc)
      → OolFits d
      → (l.port_of (take p.port_descriptor_size (l.ool_bytes d))).type_ ≡ d.type_
  pub port_new_fields :
      (name disposition : ℕ)
      → l.port_new name disposition
        ≡ record { name = name; disposition = disposition; type_ = p.port_descriptor }
  pub ool_new_fields :
      (address : ℕ) (deallocate : Bool) (copy size : ℕ)
      → l.ool_new address deallocate copy size ≡ record {
        address = address;
        deallocate = if deallocate then 1 else 0;
        copy = copy;
        type_ = p.ool_descriptor;
        size = size;
      }

-- A reference to a descriptor in the buffer. What an OOL ports descriptor holds is never read.
pub data TransmutedMsgDesc : Type 0 where
  port : PortDesc → TransmutedMsgDesc
  ool : OolDesc → TransmutedMsgDesc
  ool_volatile : OolDesc → TransmutedMsgDesc
  ool_ports : TransmutedMsgDesc

-- `body_size`: the size that the header of a received message gives, or the length of the buffer.
unfoldable pub body_size : Platform → Buffer → ℕ → Bool → Outcome ℕ
body_size p b len received =
    if received then sub_word p.profile 64 b.header.msgh_size p.header_size else ok len

module _ (p : Platform) (l : Layout) where
  unfoldable pub size_for_desc_type : ℕ → Outcome ℕ
  size_for_desc_type type_ =
      if type_ == p.port_descriptor
      then ok p.port_descriptor_size
      else if type_ == p.ool_descriptor
      then ok p.ool_descriptor_size
      else if type_ == p.ool_volatile_descriptor
      then ok p.ool_descriptor_size
      else if type_ == p.ool_ports_descriptor
      then ok p.ool_ports_descriptor_size
      else panic

  -- The `match type_` that turns the bytes into a descriptor: the fields that its users read through
  -- the reference. An unaligned read gives them too; whether the reference has the alignment of its
  -- type is what Desc/References is about.
  unfoldable pub transmute : ℕ → List ℕ → Outcome TransmutedMsgDesc
  transmute type_ bytes =
      if type_ == p.port_descriptor
      then ok (port (l.port_of bytes))
      else if type_ == p.ool_descriptor
      then ok (ool (l.ool_of bytes))
      else if type_ == p.ool_volatile_descriptor
      then ok (ool_volatile (l.ool_of bytes))
      else if type_ == p.ool_ports_descriptor
      then ok ool_ports
      else panic

  -- The descriptor at `offset`, and the offset behind it. The allocation is aligned as the header is,
  -- to a multiple of the alignment of a port descriptor.
  unfoldable pub next_desc_impl : Buffer → ℕ → Bool → Outcome (TransmutedMsgDesc × ℕ)
  next_desc_impl b offset received = do
    cells ← body p b
    size ← body_size p b (length cells) received
    assert (ltb offset size)
    debug_assert p.profile (leb size (length cells))
    assert (leb p.port_descriptor_size (size - offset))
    tail ← slice_from offset cells
    type_cells ← slice_to p.port_descriptor_size tail
    assert ((p.header_size + offset) % p.port_descriptor_align == 0)
    type_bytes ← access (bytes_of type_cells)
    let type_ = (l.port_of type_bytes).type_
    desc_size ← size_for_desc_type type_
    assert (leb desc_size (size - offset))
    desc_cells ← slice_to desc_size tail
    desc_bytes ← access (bytes_of desc_cells)
    desc ← transmute type_ desc_bytes
    next_offset ← unwrap (try_into 32 (offset + desc_size))
    ok (desc, next_offset)
