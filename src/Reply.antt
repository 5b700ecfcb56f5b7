-- ===== src/Reply.antt =====
-- The reply port of a message: `release_reply_port` and the three `set_*_reply_port` of
-- msg/builder.rs. They may drop a right, so they call the kernel.
pub mod Effect
pub mod Asked
pub mod Requests
pub mod Replaced
use mach_ports_rs.Prelude.{ℕ, Bool, ◌==◌, if◌then◌else◌}
use mach_ports_rs.Abi.{Platform}
use mach_ports_rs.MsgBits
use mach_ports_rs.Kernel.{Kernel, M, ◌>>=◌, ◌>>◌, pure, lift}
use mach_ports_rs.Rights
use mach_ports_rs.Rights.{
  RightKind, Right, SendRight, RecvRight, BaseSendRight, send, send_once, msg_type, from_raw_name,
}
use mach_ports_rs.Builder.{Builder, with_header, made}

module _ {S : Type 0} (p : Platform) (k : Kernel S) where
  -- The `match bits.local()` of a reply port that is not null.
  unfoldable pub drop_reply : (local_bits name : ℕ) → M S (Unit {0})
  drop_reply local_bits name =
      if local_bits == p.move_send
      then Rights.drop p k {kind = send} (from_raw_name name)
      else if local_bits == p.move_send_once
      then Rights.drop p k {kind = send_once} (from_raw_name name)
      else pure tt

  unfoldable pub release_reply_port : Builder → M S Builder
  release_reply_port b = do
    bits ← lift (MsgBits.from_bits p b.buffer.header.msgh_bits)
    (if b.buffer.header.msgh_local_port == p.port_null
        then pure tt
        else drop_reply (MsgBits.local p bits) b.buffer.header.msgh_local_port)
    pure (with_header b (record (b.buffer.header) { msgh_local_port = p.port_null }))

  -- The common part of setting a right that keeps its owner: name and local bits.
  unfoldable pub set_local_port : Builder → (name local_bits : ℕ) → M S Builder
  set_local_port b name local_bits = do
    released ← release_reply_port b
    bits ← lift (MsgBits.from_bits p released.buffer.header.msgh_bits)
    new_bits ← lift (MsgBits.set_local p bits local_bits)
    pure (
        with_header released
          (record (released.buffer.header) { msgh_local_port = name; msgh_bits = new_bits }))

  unfoldable pub set_made_reply_port : Builder → RecvRight → Bool → M S Builder
  set_made_reply_port b right once = set_local_port b right.name (made p once)

  unfoldable pub set_copied_reply_port : Builder → SendRight → M S Builder
  set_copied_reply_port b right = set_local_port b right.name p.copy_send

  unfoldable pub set_moved_reply_port :
      {kind : RightKind} → BaseSendRight kind → Builder → Right kind → M S Builder
  set_moved_reply_port {kind} _ b right = do
    released ← release_reply_port b
    bits ← lift (MsgBits.from_bits p released.buffer.header.msgh_bits)
    new_bits ←
        lift (MsgBits.new p (MsgBits.complex p bits) 0 (msg_type p kind) (MsgBits.voucher p bits))
    pure (
        with_header released
          (record (released.buffer.header) { msgh_local_port = right.name; msgh_bits = new_bits }))
