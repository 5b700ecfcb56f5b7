-- ===== src/Parser/Safe.antt =====
-- Messages that nobody vouches for, read by the parsers: the memory that is accessed, whatever the
-- bytes are.
use mach_ports_rs.Prelude.{
  ℕ, zero, suc, ◌-◌, ◌%◌, ◌||◌, ◌≤◌, ◌≡◌, inl, inr, refl, true, some, List, ◌++◌, map, length, ◌==◌,
  ltb, leb, if◌then◌else◌, ok, ◌>>=◌, access, bit_and, arith, sub_word-IsDefined, IsDefined, Safely,
  safely, stopped, Safely-bind, Safely-assert, Safely-debug_assert, Safely-if, unwrap-IsDefined,
}
use mach_ports_rs.Abi.{Platform}
use mach_ports_rs.MsgBits
use mach_ports_rs.Buffer
use mach_ports_rs.Vm.{nonnull}
use mach_ports_rs.Buffer.{Buffer, Header, Cell, bytes_of, slice_to, slice_from, descriptors_count}
use mach_ports_rs.Desc.{
  Layout, TransmutedMsgDesc, port, ool, ool_volatile, ool_ports, next_desc_impl,
}
use mach_ports_rs.Parser
use mach_ports_rs.Parser.{
  next, parsed_desc, parsed_voucher, parsed_reply, parse_header_impl, DescOrBodyParser, descriptor,
  body_left, DescParser, BodyParser, parser_at,
}
use mach_ports_rs.Parser.Roundtrip.{read_all}
use mach_ports_rs.Parser.Incoming.{parse_message}
use mach_ports_rs.Desc.References.{AreAligned, references, references-AreAligned}
use mach_ports_rs.Desc.Safe.{
  IsFilled, slice_to-eq, slice_to-IsDefined, filled_slice, next_desc_impl-IsDefined,
}

module _ (p : Platform) (l : Layout) where
  parsed_desc-IsDefined : (desc : TransmutedMsgDesc) → IsDefined (parsed_desc p desc)
  unfolding parsed_desc Parser.parsed_port Parser.parsed_ool
  parsed_desc-IsDefined (port x) = Safely-if (x.disposition == p.move_send) (safely tt) (
      Safely-if (x.disposition == p.move_send_once) (safely tt)
        (Safely-if (x.disposition == p.move_receive) (safely tt) stopped))
  parsed_desc-IsDefined (ool x) =
      Safely-bind (Safely-if (x.size == 0) (safely tt) (unwrap-IsDefined (nonnull x.address)))
        (λ ptr e u. (safely tt))
  parsed_desc-IsDefined (ool_volatile x) = stopped
  parsed_desc-IsDefined ool_ports = stopped

  parsed_voucher-IsDefined : (h : Header) → IsDefined (parsed_voucher p h)
  unfolding parsed_voucher
  parsed_voucher-IsDefined h = Safely-if (h.msgh_voucher_port == p.port_null) (safely tt) (
      Safely-assert
        (MsgBits.voucher p h.msgh_bits == p.copy_send
          || MsgBits.voucher p h.msgh_bits == p.move_send)
        (λ e. (safely tt)))

  parsed_reply-IsDefined : (h : Header) → IsDefined (parsed_reply p h)
  unfolding parsed_reply
  parsed_reply-IsDefined h = Safely-if (h.msgh_remote_port == p.port_null) (safely tt) (
      Safely-if (MsgBits.remote p h.msgh_bits == p.move_send) (safely tt)
        (Safely-if (MsgBits.remote p h.msgh_bits == p.move_send_once) (safely tt) stopped))

from_bits-Safely :
    (p : Platform) (value : ℕ) → Safely (λ bits. bits ≡ value) (MsgBits.from_bits p value)
unfolding MsgBits.from_bits
from_bits-Safely p value =
    Safely-assert (value == bit_and value p.msgh_bits_user) (λ e. safely refl)

-- The parser is over this buffer.
abbrev pub Over : Buffer → DescOrBodyParser → Type 0
Over b (descriptor x) = x.buffer ≡ b
Over b (body_left r) = r.buffer ≡ b

parser_at-Over :
    (p : Platform) (b' b : Buffer) (count offset : ℕ)
    → b' ≡ b
    → Over b (parser_at p b' count offset)
parser_at-Over p b' b count offset e = ground (arith, e)

module _ (p : Platform) (l : Layout) {b : Buffer} (h : IsFilled p b) where
  desc_left :
      (x : DescParser) → x.buffer ≡ b → IsDefined (next_desc_impl p l x.buffer x.offset true)
  desc_left x e = rw e (next_desc_impl-IsDefined p l h x.offset)

  -- The parser that `next` leaves is over the same buffer.
  next-Safely : (x : DescParser) → x.buffer ≡ b → Safely (λ r. Over b r.1) (next p l x)
  unfolding next
  next-Safely x e = Safely-assert (ltb 0 x.count) (λ some_left.
      Safely-bind (desc_left x e) (λ (desc, next_offset) ne u.
        Safely-bind (parsed_desc-IsDefined p l desc)
          (λ parsed pe v. safely (parser_at-Over p x.buffer b (x.count - 1) next_offset e))))

  read_all-Safely :
      (n : ℕ) (parser : DescOrBodyParser)
      → Over b parser
      → Safely (λ r. r.1.buffer ≡ b) (read_all p l n parser)
  read_all-Safely n (body_left r) e = safely e
  read_all-Safely zero (descriptor x) e = stopped
  read_all-Safely (suc n) (descriptor x) e =
      Safely-bind (next-Safely x e) (λ (parsed, parser) ne over.
        Safely-bind (read_all-Safely n parser over) (λ (others, left) re same. safely same))

  count_left :
      (bits : ℕ)
      → bits ≡ b.header.msgh_bits
      → IsDefined (
          if MsgBits.complex p bits
          then (do
            cells ← Buffer.body p b
            size ← slice_to 4 cells
            bytes ← access (bytes_of size)
            ok (Buffer.from_ne_bytes bytes))
          else ok 0)
  count_left bits e = elim (h.counted) [
    | inl plain ↦ rw (e, plain) (safely tt)
    | inr four ↦
        Safely-if (MsgBits.complex p bits)
          (rw h.body_eq (
            Safely-bind (slice_to-IsDefined 4 (map some h.bytes ++ h.rest))
              (λ size se u. Safely-bind (first_four size se four) (λ bytes be v. safely tt))))
          (safely tt)
  ]
    where
      first_four :
          (size : List Cell)
          → slice_to 4 (map {A = ℕ} {B = Cell} some h.bytes ++ h.rest) ≡ ok size
          → 4 ≤ length h.bytes
          → IsDefined (access (bytes_of size))
      first_four size se four =
          rw
            (
              slice_to-eq 4 (map some h.bytes ++ h.rest) size se,
              filled_slice h.bytes h.rest 0 4 four,
            )
            (safely tt)

  descriptors_count-IsDefined : IsDefined (descriptors_count p b)
  unfolding descriptors_count Buffer.header_bits
  descriptors_count-IsDefined =
      Safely-bind (from_bits-Safely p b.header.msgh_bits) (λ bits be e. count_left bits e)

  pub parse_header_impl-Safely : Safely (λ r. Over b r.1) (parse_header_impl p b)
  unfolding parse_header_impl
  parse_header_impl-Safely = Safely-bind (parsed_voucher-IsDefined p l b.header) (λ voucher ve u.
      Safely-bind (parsed_reply-IsDefined p l b.header) (λ reply re v.
        Safely-bind descriptors_count-IsDefined (λ count ce w. safely (first_parser-Over count))))
    where
      first_parser-Over :
          (count : ℕ)
          → Over b (
              if ltb 0 count
              then descriptor (record { buffer = b; count = count; offset = 4 })
              else body_left (record { buffer = b; offset = 0 }))
      first_parser-Over count = ground arith

  body-IsDefined : (r : BodyParser) → r.buffer ≡ b → IsDefined (Parser.body p r)
  unfolding Parser.body
  body-IsDefined r e =
      Safely-bind (sub_word-IsDefined p.profile 64 r.buffer.header.msgh_size p.header_size)
        (λ size se u. Safely-debug_assert p.profile (leb r.offset size) (
          Safely-bind (cells_left r e) (λ cells ce v.
            Safely-debug_assert p.profile (leb size (length cells)) (
              Safely-assert (leb r.offset size)
                (λ low. Safely-assert (leb size (length cells)) (λ high. safely tt))))))
    where
      cells_left : (r : BodyParser) → r.buffer ≡ b → IsDefined (Buffer.body p r.buffer)
      cells_left r e = rw (e, h.body_eq) (safely tt)

  message-IsDefined : (n : ℕ) → IsDefined (parse_message p l n b)
  message-IsDefined n = Safely-bind parse_header_impl-Safely (λ (hdr, parser) he over.
      Safely-bind (read_all-Safely n parser over)
        (λ (descs, left) re same. Safely-bind (body-IsDefined left same) (λ cells ce u. safely tt)))

  -- Parsing the header, any number of descriptors and the body of a message, whatever the bytes,
  -- the header and the sizes in them are, returns or panics and never accesses memory outside of
  -- the buffer or bytes that were never written, and every reference that next_desc_impl forms to a
  -- descriptor which it returns is aligned for its type, provided that the kernel filled the buffer
  -- with as many bytes as msgh_size says, that a complex message has room for a number of
  -- descriptors, that the buffer lies at a multiple of the alignment of a port descriptor, and that
  -- the type of an OOL descriptor needs no more alignment than that (mach/message.h packs it to
  -- four bytes; the comment at parser.rs:134 takes it to need more, which is not covered).
  pub parse_message-IsDefined :
      (n ool_align base : ℕ)
      → p.port_descriptor_align % ool_align ≡ 0
      → base % p.port_descriptor_align ≡ 0
      → IsDefined (parse_message p l n b)
        × ((count offset : ℕ) → AreAligned (references p l ool_align base b count offset))
  parse_message-IsDefined n ool_align base packed placed =
      (message-IsDefined n, references-AreAligned p l ool_align base packed placed b)
