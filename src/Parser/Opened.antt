-- ===== src/Parser/Opened.antt =====
-- What the parsers read of the header, the number of descriptors and the end of the body of a received
-- message.
use mach_ports_rs.Prelude.{
  ℕ, ◌+◌, ◌^◌, ◌<◌, ◌≤◌, ◌≡◌, inl, inr, sym, ap, ◌∙◌, true, Option, none, some, List, [], ◌∷◌, ◌++◌,
  map, map-append, append_assoc, length, length-append, length-map, take, drop, take-append,
  drop-append, leb_iff, ==_iff, ok, arith, sub_word, sub_word-ok, debug_assert-ok,
}
use mach_ports_rs.Abi.{Platform, IsDarwin}
use mach_ports_rs.MsgBits
use mach_ports_rs.MsgBits.Fields.{getters, from_bits-encode}
use mach_ports_rs.Buffer
use mach_ports_rs.Buffer.{Buffer, Header, Cell, to_ne_bytes, slice_to, descriptors_count}
use mach_ports_rs.Buffer.Holds.{bytes_of-some, from_ne_bytes-to_ne_bytes}
use mach_ports_rs.Desc.{Layout, IsLayout, body_size}
use mach_ports_rs.Desc.Read.{Item}
use mach_ports_rs.Builder.Message.{some_descs, items_bytes, desc_area, length-le-desc_area}
use mach_ports_rs.Parser
use mach_ports_rs.Parser.{
  ParsedMsgHdr, ParsedMsgDesc, BodyParser, parsed_voucher, parsed_reply, parse_header_impl,
  descriptor, parser_at,
}
use mach_ports_rs.Parser.Roundtrip.{Delivered, delivered_item}
use mach_ports_rs.Parser.Incoming.{
  ReplyIn, reply_of, ReplyCarried, voucher_of, VoucherCarried, IsReceived, no_reply, send_reply,
  once_reply,
}

first_four :
    (n : ℕ) (more : List Cell)
    → slice_to 4 (map some (to_ne_bytes n) ++ more) ≡ ok (map some (to_ne_bytes n))
unfolding to_ne_bytes
first_four n more = rw ((leb_iff 4 (length (map some (to_ne_bytes n) ++ more))).1 (omega arith))

module _ {p : Platform} (d : IsDarwin p) {l : Layout} (lay : IsLayout p l) {b : Buffer}
    {reply : ReplyIn} {voucher : Option ℕ} {cs : List Delivered} {inline : List ℕ}
    (h : IsReceived p l b reply voucher cs inline) where
  remote_read : MsgBits.remote p b.header.msgh_bits ≡ h.fields.remote
  remote_read = rw h.bits ((getters d h.fields h.fit).1)

  voucher_read : MsgBits.voucher p b.header.msgh_bits ≡ h.fields.voucher
  voucher_read = rw h.bits ((getters d h.fields h.fit).3)

  pub reply_parsed :
      (r : ReplyIn) → ReplyCarried p b.header h.fields r → parsed_reply p b.header ≡ ok (reply_of r)
  unfolding parsed_reply
  reply_parsed no_reply e = rw ((==_iff b.header.msgh_remote_port p.port_null).1 e)
  reply_parsed (send_reply name) (e, ne, k) = rw (remote_read, k, e) (ground (arith, ne))
  reply_parsed (once_reply name) (e, ne, k) =
      rw (remote_read, k, e, d.move_send, d.move_send_once) (ground (arith, ne))

  pub voucher_parsed :
      (v : Option ℕ)
      → VoucherCarried p b.header h.fields v
      → parsed_voucher p b.header ≡ ok (voucher_of v)
  unfolding parsed_voucher
  voucher_parsed none e = rw ((==_iff b.header.msgh_voucher_port p.port_null).1 e)
  voucher_parsed (some name) (e, ne, inl k) = rw (voucher_read, k, e) (ground (arith, ne))
  voucher_parsed (some name) (e, ne, inr k) = rw (voucher_read, k, e) (ground (arith, ne))

  unfoldable pub area : List ℕ
  area = desc_area l (map (delivered_item p) cs)

  unfoldable pub cells : List Cell
  cells = map some area ++ (map some inline ++ h.rest)

  unfoldable pub size : ℕ
  size = length area + length inline

  pub size_read : (n : ℕ) → body_size p b n true ≡ ok size
  unfolding body_size size area
  size_read n =
      rw (sub_word-ok p.profile 64 b.header.msgh_size p.header_size (omega (arith, h.size_eq)))
        (ap ok (omega (arith, h.size_eq)))

  pub length-cells : length cells ≡ size + length h.rest
  unfolding cells size
  length-cells = omega (
    arith,
    length-append (map {A = ℕ} {B = Cell} some area) (map some inline ++ h.rest),
    length-append (map {A = ℕ} {B = Cell} some inline) h.rest,
    length-map {0, 0} {A = ℕ} {B = Cell} some area,
    length-map {0, 0} {A = ℕ} {B = Cell} some inline,
  )

  pub body_cells : Buffer.body p b ≡ ok cells
  unfolding cells area
  body_cells = h.body_eq

  pub size_small : size < 2 ^ 32
  unfolding size area
  size_small = omega (arith, h.size_eq, h.small)

  inline_cut : drop (length area) (take size cells) ≡ map some inline
  unfolding cells size
  inline_cut = rw (
    ← append_assoc (map {A = ℕ} {B = Cell} some area) (map some inline) h.rest,
    take-append (map {A = ℕ} {B = Cell} some area ++ map some inline) h.rest
        (length area + length inline) length-message,
    drop-append (map {A = ℕ} {B = Cell} some area) (map some inline) (length area)
        (sym (length-map {0, 0} {A = ℕ} {B = Cell} some area)),
  )
    where
      length-message :
          length area + length inline ≡ length (map {A = ℕ} {B = Cell} some area ++ map some inline)
      length-message = omega (
        arith,
        length-append (map {A = ℕ} {B = Cell} some area) (map some inline),
        length-map {0, 0} {A = ℕ} {B = Cell} some area,
        length-map {0, 0} {A = ℕ} {B = Cell} some inline,
      )

  -- The body parser behind the descriptors gives the inline data.
  pub body_parsed :
      Parser.body p (record { buffer = b; offset = length area }) ≡ ok (map some inline)
  unfolding Parser.body
  body_parsed = rw (
    size_word,
    debug_assert-ok p.profile ((leb_iff (length area) size).1 offset_within),
    body_cells,
    debug_assert-ok p.profile ((leb_iff size (length cells)).1 (omega (arith, length-cells))),
    (leb_iff (length area) size).1 offset_within,
    (leb_iff size (length cells)).1 (omega (arith, length-cells)),
    inline_cut,
  )
    where
      size_word : sub_word p.profile 64 b.header.msgh_size p.header_size ≡ ok size
      size_word = unfold body_size in size_read 0

      offset_within : length area ≤ size
      offset_within = unfold size in omega arith

  count_of :
      (descs : List Item) (more : List Cell)
      → Buffer.body p b ≡ ok (map some (desc_area l descs) ++ more)
      → h.fields.complex ≡ some_descs descs
      → length descs < 2 ^ 32
      → descriptors_count p b ≡ ok (length descs)
  unfolding descriptors_count Buffer.header_bits
  count_of [] more body_eq complex few = rw (bits_pass, complex_bit, complex)
    where
      bits_pass : MsgBits.from_bits p b.header.msgh_bits ≡ ok b.header.msgh_bits
      bits_pass = rw h.bits (from_bits-encode d h.fields h.fit)

      complex_bit : MsgBits.complex p b.header.msgh_bits ≡ h.fields.complex
      complex_bit = rw h.bits ((getters d h.fields h.fit).0)
  count_of (j ∷ is) more body_eq complex few = rw (
    bits_pass,
    complex_bit,
    complex,
    body_eq,
    map-append {A = ℕ} {B = Cell} some (to_ne_bytes (length (j ∷ is))) (items_bytes l (j ∷ is)),
    append_assoc (map {A = ℕ} {B = Cell} some (to_ne_bytes (length (j ∷ is))))
        (map some (items_bytes l (j ∷ is))) more,
    first_four (length (j ∷ is)) (map some (items_bytes l (j ∷ is)) ++ more),
    bytes_of-some (to_ne_bytes (length (j ∷ is))),
    from_ne_bytes-to_ne_bytes (length (j ∷ is)) few,
  )
    where
      bits_pass : MsgBits.from_bits p b.header.msgh_bits ≡ ok b.header.msgh_bits
      bits_pass = rw h.bits (from_bits-encode d h.fields h.fit)

      complex_bit : MsgBits.complex p b.header.msgh_bits ≡ h.fields.complex
      complex_bit = rw h.bits ((getters d h.fields h.fit).0)

  pub count_read : descriptors_count p b ≡ ok (length cs)
  count_read =
      count_of (map (delivered_item p) cs) (map some inline ++ h.rest) h.body_eq h.complex few
      ∙ ap ok (length-map {0, 0} {A = Delivered} {B = Item} (delivered_item p) cs)
    where
      few : length (map (delivered_item p) cs) < 2 ^ 32
      few = omega (arith, h.size_eq, h.small, length-le-desc_area d lay (map (delivered_item p) cs))
