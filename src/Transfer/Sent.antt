-- ===== src/Transfer/Sent.antt =====
-- What the kernel is given of a message that is sent.
use mathlib.Core.Path.{fun_ext}
use mach_ports_rs.Prelude.{
  ℕ, ◌+◌, ◌%◌, ◌^◌, ◌<◌, ◌≡◌, some, List, ◌++◌, map, length, length-map, arith, ok, ◌==◌,
  if◌then◌else◌,
}
use mach_ports_rs.Abi.{Platform, IsDarwin}
use mach_ports_rs.MsgBits
use mach_ports_rs.MsgBits.Fields.{Fields, encode, set_remote_lem, from_bits-encode}
use mach_ports_rs.Kernel.{Kernel, M, MsgCall, ◌>>=◌, pure}
use mach_ports_rs.Rights.{SendRight, SendOnceRight}
use mach_ports_rs.Buffer.{Buffer, Header, Cell, as_slice}
use mach_ports_rs.Buffer.Holds.{with_header-Holds, bytes_of-some, as_slice-ok}
use mach_ports_rs.Desc.{Layout}
use mach_ports_rs.Desc.Read.{Item}
use mach_ports_rs.Builder.{Builder, set_raw_remote_port, with_header}
use mach_ports_rs.Builder.Message.{desc_area, Builds}
use mach_ports_rs.Transfer
use mach_ports_rs.Transfer.{Result, done, failed, mach_msg, send_impl}

-- The builder with a destination.
abbrev pub addressed : Builder → Fields → (name bits : ℕ) → Builder
addressed b f name bits = with_header b (record (b.buffer.header) {
  msgh_remote_port = name;
  msgh_bits = encode (record f { remote = bits });
})

-- The one call: the header with the destination, all bytes of the message, and their number.
abbrev pub send_call : Platform → Header → List ℕ → MsgCall
send_call p header bytes = record {
  header = header;
  bytes = bytes;
  option = p.send_msg;
  send_size = (length bytes + p.header_size) % 2 ^ 32;
  rcv_size = 0;
  rcv_name = p.port_null;
}

-- `Ok` exactly for KERN_SUCCESS, and the code as it is otherwise.
abbrev pub result_of : Platform → ℕ → Result (Unit {0})
result_of p result = if result == p.kern_success then done tt else failed result

abbrev pub hand_over :
    {S : Type 0} → Platform → Kernel S → Builder → List ℕ → M S (Result (Unit {0}) × Buffer)
hand_over p k b bytes = do
  (result, buffer) ← mach_msg p k (send_call p b.buffer.header bytes) b.buffer
  pure (result_of p result, buffer)

module _ {p : Platform} (d : IsDarwin p) {S : Type 0} (k : Kernel S) {l : Layout} {b : Builder}
    {f : Fields} {descs : List Item} {inline : List ℕ} (h : Builds p l b f descs inline) where
  remote_set :
      (name bits : ℕ) → bits < 32 → set_raw_remote_port p b name bits ≡ ok (addressed b f name bits)
  unfolding set_raw_remote_port
  remote_set name bits lt = rw (read, set)
    where
      read : MsgBits.from_bits p b.buffer.header.msgh_bits ≡ ok b.buffer.header.msgh_bits
      read = rw h.bits (from_bits-encode d f h.fit)

      set :
          MsgBits.set_remote p b.buffer.header.msgh_bits bits
          ≡ ok (encode (record f { remote = bits }))
      set = rw h.bits (set_remote_lem d f bits h.fit lt)

  sliced :
      (name bits : ℕ)
      → as_slice p (addressed b f name bits).buffer
        ≡ ok ((addressed b f name bits).buffer.header, map some (desc_area l descs ++ inline))
  sliced name bits = as_slice-ok (with_header-Holds _ h.holds)

  send_impl-hand_over :
      (name bits : ℕ)
      → bits < 32
      → send_impl p k name b bits
        ≡ hand_over p k (addressed b f name bits) (desc_area l descs ++ inline)
  unfolding send_impl
  send_impl-hand_over name bits lt = fun_ext λ s. rw (
    remote_set name bits lt,
    sliced name bits,
    bytes_of-some (desc_area l descs ++ inline),
    length-map {0, 0} {A = ℕ} {B = Cell} some (desc_area l descs ++ inline),
  )

  -- Sending a message that a builder holds is one call of mach_msg, with the name of the right as
  -- the destination and COPY_SEND (for a send right) or MOVE_SEND_ONCE (for a send once right) as
  -- its remote bits, all bytes of the message and their number; the result is Ok exactly for
  -- KERN_SUCCESS and the code of the kernel otherwise, and nothing is given back by the sender in
  -- either case.
  pub sends-hand_over :
      (right : SendRight) (once : SendOnceRight)
      → (Transfer.send p k right b
          ≡ hand_over p k (addressed b f right.name p.copy_send) (desc_area l descs ++ inline))
        × (Transfer.send_once p k once b
            ≡ hand_over p k
                (addressed b f once.name p.move_send_once)
                (desc_area l descs ++ inline))
  unfolding Transfer.send Transfer.send_once
  sends-hand_over right once = (
    send_impl-hand_over right.name p.copy_send (omega (arith, d.copy_send)),
    send_impl-hand_over once.name p.move_send_once (omega (arith, d.move_send_once)),
  )
