-- ===== src/Parser/Incoming.antt =====
-- Received messages: what a buffer holds that the parsers take apart, and a client that reads it.
use mach_ports_rs.Prelude.{
  ℕ, ◌+◌, ◌^◌, ◌<◌, ◌≡◌, ◌≢◌, ◌⊎◌, Option, none, some, List, ◌++◌, map, length, Outcome, ok, ◌>>=◌,
}
use mach_ports_rs.Abi.{Platform}
use mach_ports_rs.MsgBits.Fields.{Fields, Fit, encode}
use mach_ports_rs.Rights.{SendRight, AnySendRight, any_send, any_send_once, from_raw_name}
use mach_ports_rs.Buffer
use mach_ports_rs.Buffer.{Buffer, Header, Cell, to_ne_bytes, slice_to, descriptors_count}
use mach_ports_rs.Desc.{Layout}
use mach_ports_rs.Builder.Message.{some_descs, desc_area}
use mach_ports_rs.Parser
use mach_ports_rs.Parser.{
  ParsedMsgHdr, ParsedMsgDesc, BodyParser, parsed_voucher, parsed_reply, parse_header_impl,
  descriptor, parser_at,
}
use mach_ports_rs.Parser.Roundtrip.{Delivered, delivered_item, AllDelivered, read_all}

-- The reply right that the header carries.
pub data ReplyIn : Type 0 where
  no_reply : ReplyIn
  send_reply once_reply : ℕ → ReplyIn

abbrev pub reply_of : ReplyIn → Option AnySendRight
reply_of no_reply = none
reply_of (send_reply name) = some (any_send (from_raw_name name))
reply_of (once_reply name) = some (any_send_once (from_raw_name name))

abbrev pub ReplyCarried : Platform → Header → Fields → ReplyIn → Type 0
ReplyCarried p h f no_reply = h.msgh_remote_port ≡ p.port_null
ReplyCarried p h f (send_reply name) =
    (h.msgh_remote_port ≡ name) × (name ≢ p.port_null) × (f.remote ≡ p.move_send)
ReplyCarried p h f (once_reply name) =
    (h.msgh_remote_port ≡ name) × (name ≢ p.port_null) × (f.remote ≡ p.move_send_once)

abbrev pub voucher_of : Option ℕ → Option SendRight
voucher_of none = none
voucher_of (some name) = some (from_raw_name name)

abbrev pub VoucherCarried : Platform → Header → Fields → Option ℕ → Type 0
VoucherCarried p h f none = h.msgh_voucher_port ≡ p.port_null
VoucherCarried p h f (some name) =
    (h.msgh_voucher_port ≡ name)
    × (name ≢ p.port_null)
    × ((f.voucher ≡ p.copy_send) ⊎ (f.voucher ≡ p.move_send))

-- A message in the buffer: what it carries stands in its header and in its first `msgh_size` bytes,
-- and whatever cells follow them.
pub record IsReceived (p : Platform) (l : Layout) (b : Buffer) (reply : ReplyIn)
    (voucher : Option ℕ) (cs : List Delivered) (inline : List ℕ) : Type 0 where
  pub fields : Fields
  pub rest : List Cell
  pub body_eq :
      Buffer.body p b
      ≡ ok (map some (desc_area l (map (delivered_item p) cs)) ++ (map some inline ++ rest))
  pub size_eq :
      b.header.msgh_size
      ≡ p.header_size + (length (desc_area l (map (delivered_item p) cs)) + length inline)
  pub small : b.header.msgh_size < 2 ^ 32
  pub bits : b.header.msgh_bits ≡ encode fields
  pub fit : Fit fields
  pub complex : fields.complex ≡ some_descs (map (delivered_item p) cs)
  pub reply_in : ReplyCarried p b.header fields reply
  pub voucher_in : VoucherCarried p b.header fields voucher
  pub all : AllDelivered cs

abbrev pub Parsed : Type 0
Parsed = ParsedMsgHdr × List ParsedMsgDesc × List Cell

-- The header, at most `n` descriptors, and the body.
abbrev pub parse_message : Platform → Layout → (n : ℕ) → Buffer → Outcome Parsed
parse_message p l n b = do
  (hdr, parser) ← parse_header_impl p b
  (descs, left) ← read_all p l n parser
  cells ← Parser.body p left
  ok (hdr, descs, cells)
