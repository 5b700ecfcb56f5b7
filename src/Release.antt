-- ===== src/Release.antt =====
-- `drop_header` and `Drop for Builder` of msg/builder.rs: what a message that is not sent gives back.
pub mod Contents
pub mod Loop
pub mod Effect
pub mod Again
pub mod Unsent
pub mod Refs
use mach_ports_rs.Prelude.{
  ℕ, zero, suc, ◌||◌, ◌==◌, if◌then◌else◌, assert, unwrap, panic, false, not,
}
use mach_ports_rs.Abi.{Platform}
use mach_ports_rs.MsgBits
use mach_ports_rs.Kernel.{Kernel, M, ◌>>=◌, ◌>>◌, pure, lift}
use mach_ports_rs.Rights
use mach_ports_rs.Rights.{send, send_once, recv, from_raw_name}
use mach_ports_rs.Vm
use mach_ports_rs.Vm.{nonnull}
use mach_ports_rs.Buffer
use mach_ports_rs.Buffer.{Header, Buffer}
use mach_ports_rs.Desc.{
  Layout, PortDesc, OolDesc, TransmutedMsgDesc, port, ool, ool_volatile, ool_ports, next_desc_impl,
}
use mach_ports_rs.Builder.{Builder}

module _ {S : Type 0} (p : Platform) (k : Kernel S) where
  unfoldable pub drop_local : (local_bits name : ℕ) → M S (Unit {0})
  drop_local local_bits name =
      if local_bits == p.move_send
      then Rights.drop p k {kind = send} (from_raw_name name)
      else if local_bits == p.move_send_once
      then Rights.drop p k {kind = send_once} (from_raw_name name)
      else if local_bits == p.copy_send
          || local_bits == p.make_send
          || local_bits == p.make_send_once
      then pure tt
      else lift panic

  -- The voucher is matched on the local bits too, as the source has it.
  unfoldable pub drop_voucher : (local_bits name : ℕ) → M S (Unit {0})
  drop_voucher local_bits name =
      if local_bits == p.move_send
      then Rights.drop p k {kind = send} (from_raw_name name)
      else if local_bits == p.copy_send
      then pure tt
      else lift panic

  unfoldable pub drop_header : Header → M S Header
  drop_header h = do
    bits ← lift (MsgBits.from_bits p h.msgh_bits)
    (if h.msgh_local_port == p.port_null
        then pure tt
        else drop_local (MsgBits.local p bits) h.msgh_local_port)
    (if h.msgh_voucher_port == p.port_null
        then pure tt
        else drop_voucher (MsgBits.local p bits) h.msgh_voucher_port)
    lift (assert (h.msgh_remote_port == p.port_null))
    lift (assert (MsgBits.remote p bits == 0))
    new_bits ← lift (MsgBits.new p (MsgBits.complex p bits) 0 0 0)
    pure (record h {
      msgh_local_port = p.port_null;
      msgh_voucher_port = p.port_null;
      msgh_bits = new_bits;
    })

  unfoldable pub drop_port : PortDesc → M S (Unit {0})
  drop_port d =
      if d.disposition == p.move_send
      then Rights.drop p k {kind = send} (from_raw_name d.name)
      else if d.disposition == p.move_send_once
      then Rights.drop p k {kind = send_once} (from_raw_name d.name)
      else if d.disposition == p.move_receive
      then Rights.drop p k {kind = recv} (from_raw_name d.name)
      else if d.disposition == p.copy_send
          || d.disposition == p.copy_receive
          || d.disposition == p.make_send
          || d.disposition == p.make_send_once
      then pure tt
      else lift panic

  unfoldable pub drop_ool : OolDesc → M S (Unit {0})
  drop_ool d =
      if d.deallocate == 0
      then pure tt
      else (do ptr ← lift (unwrap (nonnull d.address)); Vm.drop p k (Vm.from_raw_parts ptr d.size))

  unfoldable pub drop_desc : TransmutedMsgDesc → M S (Unit {0})
  drop_desc (port d) = drop_port d
  drop_desc (ool d) = drop_ool d
  drop_desc (ool_volatile d) = drop_ool d
  drop_desc ool_ports = lift panic

module _ {S : Type 0} (p : Platform) (k : Kernel S) (l : Layout) where
  -- `while count > 0`
  unfoldable pub drop_loop : Buffer → (count offset : ℕ) → M S (Unit {0})
  drop_loop b zero offset = pure tt
  drop_loop b (suc count) offset = do
    (desc, next_offset) ← lift (next_desc_impl p l b offset false)
    drop_desc p k desc
    drop_loop b count next_offset

  -- The buffer outlives the builder.
  unfoldable pub drop : Builder → M S Buffer
  drop b = do
    header ← drop_header p k b.buffer.header
    let buffer = record (b.buffer) { header = header }
    count ← lift (Buffer.descriptors_count p buffer)
    drop_loop buffer count 4
    pure buffer
