-- ===== src/Parser.antt =====
-- The parsers of msg/parser.rs: what a received message is taken apart into, step by step.
--
-- A parser holds the buffer that the source moves from one parser to the next. `OolBuf` is a `VmBuf`.
pub mod Discard
pub mod Roundtrip
pub mod Incoming
pub mod Opened
pub mod Received
pub mod Unread
pub mod Safe
pub mod SafeDrop
pub mod Rounds
use mach_ports_rs.Prelude.{
  ℕ, zero, suc, ◌-◌, ◌||◌, Bool, true, Option, none, some, List, length, take, drop, ltb, leb, ◌==◌,
  if◌then◌else◌, Outcome, ok, panic, ◌>>=◌, ◌>>◌, assert, debug_assert, unwrap, sub_word,
}
use mach_ports_rs.Abi.{Platform}
use mach_ports_rs.MsgBits
use mach_ports_rs.Rights.{
  SendRight, SendOnceRight, RecvRight, AnySendRight, any_send, any_send_once, from_raw_name,
}
use mach_ports_rs.Vm
use mach_ports_rs.Vm.{VmBuf, nonnull, dangling}
use mach_ports_rs.Buffer
use mach_ports_rs.Buffer.{Buffer, Header, Cell, descriptors_count}
use mach_ports_rs.Desc.{
  Layout, PortDesc, OolDesc, TransmutedMsgDesc, port, ool, ool_volatile, ool_ports, next_desc_impl,
}

pub record ParsedMsgHdr : Type 0 where
  pub id : ℕ
  pub reply_right : Option AnySendRight
  pub voucher : Option SendRight

pub data ParsedMsgDesc : Type 0 where
  port_recv : RecvRight → ParsedMsgDesc
  port_send : SendRight → ParsedMsgDesc
  port_send_once : SendOnceRight → ParsedMsgDesc
  ool_data : VmBuf → ParsedMsgDesc

pub record BodyParser : Type 0 where
  pub buffer : Buffer
  pub offset : ℕ

pub record DescParser : Type 0 where
  pub buffer : Buffer
  pub count : ℕ
  pub offset : ℕ

pub data DescOrBodyParser : Type 0 where
  descriptor : DescParser → DescOrBodyParser
  body_left : BodyParser → DescOrBodyParser

module _ (p : Platform) where
  -- `BodyParser::body`, with `&body[offset..size]` written out.
  unfoldable pub body : BodyParser → Outcome (List Cell)
  body b = do
    size ← sub_word p.profile 64 b.buffer.header.msgh_size p.header_size
    debug_assert p.profile (leb b.offset size)
    cells ← Buffer.body p b.buffer
    debug_assert p.profile (leb size (length cells))
    assert (leb b.offset size)
    assert (leb size (length cells))
    ok (drop b.offset (take size cells))

  unfoldable pub parsed_port : PortDesc → Outcome ParsedMsgDesc
  parsed_port d =
      if d.disposition == p.move_send
      then ok (port_send (from_raw_name d.name))
      else if d.disposition == p.move_send_once
      then ok (port_send_once (from_raw_name d.name))
      else if d.disposition == p.move_receive
      then ok (port_recv (from_raw_name d.name))
      else panic

  unfoldable pub parsed_ool : OolDesc → Outcome ParsedMsgDesc
  parsed_ool d = do
    ptr ← (if d.size == 0 then ok dangling else unwrap (nonnull d.address))
    ok (ool_data (Vm.from_raw_parts ptr d.size))

  unfoldable pub parsed_desc : TransmutedMsgDesc → Outcome ParsedMsgDesc
  parsed_desc (port d) = parsed_port d
  parsed_desc (ool d) = parsed_ool d
  parsed_desc (ool_volatile d) = panic
  parsed_desc ool_ports = panic

  -- The parser behind a descriptor.
  abbrev pub parser_at : Buffer → (count offset : ℕ) → DescOrBodyParser
  parser_at b count offset =
      if ltb 0 count
      then descriptor (record { buffer = b; count = count; offset = offset })
      else body_left (record { buffer = b; offset = offset })

  unfoldable pub next : Layout → DescParser → Outcome (ParsedMsgDesc × DescOrBodyParser)
  next l d = do
    assert (ltb 0 d.count)
    (desc, offset) ← next_desc_impl p l d.buffer d.offset true
    parsed ← parsed_desc desc
    ok (parsed, parser_at d.buffer (d.count - 1) offset)

  -- The voucher and the reply right of the header.
  unfoldable pub parsed_voucher : Header → Outcome (Option SendRight)
  parsed_voucher h = if h.msgh_voucher_port == p.port_null then ok none else (do
    assert (
        MsgBits.voucher p h.msgh_bits == p.copy_send
        || MsgBits.voucher p h.msgh_bits == p.move_send)
    ok (some (from_raw_name h.msgh_voucher_port)))

  unfoldable pub parsed_reply : Header → Outcome (Option AnySendRight)
  parsed_reply h =
      if h.msgh_remote_port == p.port_null
      then ok none
      else if MsgBits.remote p h.msgh_bits == p.move_send
      then ok (some (any_send (from_raw_name h.msgh_remote_port)))
      else if MsgBits.remote p h.msgh_bits == p.move_send_once
      then ok (some (any_send_once (from_raw_name h.msgh_remote_port)))
      else panic

  unfoldable pub parse_header_impl : Buffer → Outcome (ParsedMsgHdr × DescOrBodyParser)
  parse_header_impl b = do
    voucher ← parsed_voucher b.header
    reply_right ← parsed_reply b.header
    count ← descriptors_count p b
    ok (
      record { id = b.header.msgh_id; reply_right = reply_right; voucher = voucher },
      if ltb 0 count
          then descriptor (record { buffer = b; count = count; offset = 4 })
          else body_left (record { buffer = b; offset = 0 }),
    )

  -- `MsgParser::new`: the parser is the buffer.
  unfoldable pub new : Buffer → Outcome Buffer
  new b = Buffer.set_len p b b.header.msgh_size
