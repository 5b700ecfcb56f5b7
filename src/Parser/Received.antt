-- ===== src/Parser/Received.antt =====
-- A received message, from its header to its inline data.
use mach_ports_rs.Prelude.{
  ℕ, suc, ◌+◌, ◌≤◌, ◌≡◌, ap, ◌∙◌, Option, some, List, [], ◌∷◌, ◌++◌, map, map-append, append_assoc,
  length, length-append, ltb_iff, ok, ◌>>=◌, arith,
}
use mach_ports_rs.Abi.{Platform, IsDarwin}
use mach_ports_rs.Buffer.{Buffer, Cell, to_ne_bytes}
use mach_ports_rs.Desc.{Layout, IsLayout}
use mach_ports_rs.Builder.Message.{
  items_bytes, items_size, desc_area, length-items_bytes, length-to_ne_bytes,
}
use mach_ports_rs.Parser
use mach_ports_rs.Parser.{
  ParsedMsgHdr, ParsedMsgDesc, BodyParser, parsed_voucher, parsed_reply, parse_header_impl,
  descriptor, parser_at,
}
use mach_ports_rs.Parser.Roundtrip.{
  Delivered, delivered_item, parsed_of, read_all, read_all-delivered,
}
use mach_ports_rs.Parser.Incoming.{ReplyIn, reply_of, voucher_of, IsReceived, Parsed, parse_message}
use mach_ports_rs.Parser.Opened.{
  reply_parsed, voucher_parsed, area, cells, size, size_read, length-cells, body_cells, size_small,
  body_parsed, count_read,
}

-- The cells of a message with descriptors: their number, the descriptors and what follows.
module _ {p : Platform} (d : IsDarwin p) {l : Layout} (lay : IsLayout p l) {b : Buffer}
    {reply : ReplyIn} {voucher : Option ℕ} {inline : List ℕ} (c : Delivered) (cs : List Delivered)
    (h : IsReceived p l b reply voucher (c ∷ cs) inline) where
  n_descs : ℕ
  n_descs = length (map (delivered_item p) (c ∷ cs))

  pub cells_split :
      cells d lay h
      ≡ map some (to_ne_bytes (length (map (delivered_item p) (c ∷ cs))))
        ++ (map some (items_bytes l (map (delivered_item p) (c ∷ cs)))
            ++ (map some inline ++ h.rest))
  unfolding cells area n_descs
  cells_split = rw (
    map-append {A = ℕ} {B = Cell} some (to_ne_bytes n_descs)
        (items_bytes l (map (delivered_item p) (c ∷ cs))),
    append_assoc (map {A = ℕ} {B = Cell} some (to_ne_bytes n_descs))
        (map some (items_bytes l (map (delivered_item p) (c ∷ cs)))) (map some inline ++ h.rest),
  )

  behind :
      4 + items_size (map (delivered_item p) (c ∷ cs))
      ≡ length (desc_area l (map (delivered_item p) (c ∷ cs)))
  unfolding n_descs
  behind = omega (
    arith,
    length-append (to_ne_bytes n_descs) (items_bytes l (map (delivered_item p) (c ∷ cs))),
    length-to_ne_bytes n_descs,
    length-items_bytes d lay (map (delivered_item p) (c ∷ cs)),
  )

  pub size_items : 4 + items_size (map (delivered_item p) (c ∷ cs)) ≤ size d lay h
  unfolding size area
  size_items = omega (arith, behind)

module _ {p : Platform} (d : IsDarwin p) {l : Layout} (lay : IsLayout p l) {b : Buffer}
    {reply : ReplyIn} {voucher : Option ℕ} {inline : List ℕ} where
  -- The descriptors of a received message are read in their order, up to the inline data.
  descs_read :
      (c : Delivered) (cs : List Delivered)
      → IsReceived p l b reply voucher (c ∷ cs) inline
      → read_all p l
          (suc (length cs))
          (descriptor (record { buffer = b; count = suc (length cs); offset = 4 }))
        ≡ ok (
          map parsed_of (c ∷ cs),
          record { buffer = b; offset = length (desc_area l (map (delivered_item p) (c ∷ cs))) },
        )
  descs_read c cs h =
      rw (length-to_ne_bytes n, (ltb_iff 0 (suc (length cs))).1 (omega arith), behind d lay c cs h)
        at
        (read_all-delivered d lay b (cells d lay h) (size d lay h) (body_cells d lay h)
          (size_read d lay h (length (cells d lay h))) (omega (arith, length-cells d lay h))
          (size_small d lay h) (to_ne_bytes n) (c ∷ cs) (map some inline ++ h.rest)
          (cells_split d lay c cs h) (omega (arith, size_items d lay c cs h, length-to_ne_bytes n))
          (omega (arith, length-to_ne_bytes n)) h.all)
    where
      n : ℕ
      n = length (map (delivered_item p) (c ∷ cs))

  -- A received message (a buffer whose first bytes are the count, the descriptors and the inline
  -- data that msgh_size speaks of, under header bits and ports that fit them) is parsed completely
  -- and without panic: parse_header gives the id, the reply right and the voucher of the header,
  -- next gives each right and each region of memory once and in their order, and the body parser
  -- that is then left gives exactly the inline data, whatever cells follow the message in the
  -- buffer.
  pub parse_message-received :
      (cs : List Delivered)
      → IsReceived p l b reply voucher cs inline
      → parse_message p l (length cs) b
        ≡ ok (
          record {
            id = b.header.msgh_id;
            reply_right = reply_of reply;
            voucher = voucher_of voucher;
          },
          map parsed_of cs,
          map some inline,
        )
  unfolding parse_header_impl
  parse_message-received [] h =
      rw
        (
          voucher_parsed d lay h voucher h.voucher_in,
          reply_parsed d lay h reply h.reply_in,
          count_read d lay h,
        )
        (rw nothing_before)
    where
      nothing_before : Parser.body p (record { buffer = b; offset = 0 }) ≡ ok (map some inline)
      nothing_before = unfold area in body_parsed d lay h
  parse_message-received (c ∷ cs) h =
      rw
        (
          voucher_parsed d lay h voucher h.voucher_in,
          reply_parsed d lay h reply h.reply_in,
          count_read d lay h,
          (ltb_iff 0 (suc (length cs))).1 (omega arith),
        )
        (ap
            (λ r.
              ◌>>=◌ {B = Parsed} r
                (λ x. ◌>>=◌ {B = Parsed} (Parser.body p x.1) (λ cells. ok (hdr, x.0, cells))))
            (descs_read c cs h)
          ∙ ap (λ r. ◌>>=◌ {B = Parsed} r (λ cells. ok (hdr, map parsed_of (c ∷ cs), cells)))
              rest_read)
    where
      rest_read :
          Parser.body p
            (record { buffer = b; offset = length (desc_area l (map (delivered_item p) (c ∷ cs))) })
          ≡ ok (map some inline)
      rest_read = unfold area in body_parsed d lay h

      hdr : ParsedMsgHdr
      hdr = record {
        id = b.header.msgh_id;
        reply_right = reply_of reply;
        voucher = voucher_of voucher;
      }
