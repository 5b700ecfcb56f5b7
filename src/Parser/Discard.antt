-- ===== src/Parser/Discard.antt =====
-- The `Drop` implementations of msg/parser.rs: what is given back of a message that is not read to
-- its end.
use mach_ports_rs.Prelude.{ℕ, zero, suc, true, Option, none, some, ◌==◌, if◌then◌else◌, panic}
use mach_ports_rs.Abi.{Platform}
use mach_ports_rs.Kernel.{Kernel, M, ◌>>=◌, ◌>>◌, pure, lift}
use mach_ports_rs.Rights
use mach_ports_rs.Rights.{
  send, send_once, recv, SendRight, AnySendRight, any_send, any_send_once, from_raw_name,
}
use mach_ports_rs.Buffer.{Buffer}
use mach_ports_rs.Desc.{
  Layout, TransmutedMsgDesc, port, ool, ool_volatile, ool_ports, next_desc_impl,
}
use mach_ports_rs.Parser.{DescOrBodyParser, descriptor, body_left, parse_header_impl}

module _ {S : Type 0} (p : Platform) (k : Kernel S) (l : Layout) where
  unfoldable pub drop_unread_desc : TransmutedMsgDesc → M S (Unit {0})
  drop_unread_desc (port d) =
      if d.disposition == p.move_send
      then Rights.drop p k {kind = send} (from_raw_name d.name)
      else if d.disposition == p.move_send_once
      then Rights.drop p k {kind = send_once} (from_raw_name d.name)
      else if d.disposition == p.move_receive
      then Rights.drop p k {kind = recv} (from_raw_name d.name)
      else lift panic
  drop_unread_desc (ool d) = lift panic
  drop_unread_desc (ool_volatile d) = lift panic
  drop_unread_desc ool_ports = lift panic

  -- `while self.count > 0` in the `Drop` of `DescParser`.
  unfoldable pub drop_unread : Buffer → (count offset : ℕ) → M S (Unit {0})
  drop_unread b zero offset = pure tt
  drop_unread b (suc count) offset = do
    (desc, next_offset) ← lift (next_desc_impl p l b offset true)
    drop_unread_desc desc
    drop_unread b count next_offset

  unfoldable pub drop_parser : DescOrBodyParser → M S (Unit {0})
  drop_parser (descriptor d) = drop_unread d.buffer d.count d.offset
  drop_parser (body_left b) = pure tt

  abbrev pub drop_reply_right : Option AnySendRight → M S (Unit {0})
  drop_reply_right none = pure tt
  drop_reply_right (some (any_send r)) = Rights.drop p k r
  drop_reply_right (some (any_send_once r)) = Rights.drop p k r

  abbrev pub drop_voucher_right : Option SendRight → M S (Unit {0})
  drop_voucher_right none = pure tt
  drop_voucher_right (some r) = Rights.drop p k r

  -- `Drop` of a `MsgParser` whose header was not parsed: the fields of the pair go in their order.
  unfoldable pub drop : Buffer → M S (Unit {0})
  drop b = do
    (hdr, parser) ← lift (parse_header_impl p b)
    drop_reply_right hdr.reply_right
    drop_voucher_right hdr.voucher
    drop_parser parser
