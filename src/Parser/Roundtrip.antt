-- ===== src/Parser/Roundtrip.antt =====
-- What the parsers give back of a message that carries rights and memory, read to its end.
use mach_ports_rs.Prelude.{
  ℕ, zero, suc, ◌+◌, ◌-◌, ◌%◌, ◌^◌, ◌<◌, ◌≤◌, ◌≡◌, ◌≢◌, ◌⊎◌, refl, sym, ap, ◌∙◌, Bool, true, false,
  some, List, [], ◌∷◌, ◌++◌, map, map-append, append_assoc, length, length-append, ltb_iff, ◌==◌,
  if◌then◌else◌, Outcome, ok, panic, ◌>>=◌, arith,
}
use mach_ports_rs.Abi.{Platform, IsDarwin}
use mach_ports_rs.Rights.{RightKind, send, send_once, recv, from_raw_name, msg_type}
use mach_ports_rs.Vm
use mach_ports_rs.Vm.{dangling}
use mach_ports_rs.Buffer
use mach_ports_rs.Buffer.{Buffer, Header, Cell, to_ne_bytes}
use mach_ports_rs.Desc.{Layout, IsLayout, body_size}
use mach_ports_rs.Desc.Read.{
  Item, ItemFits, transmuted, item_bytes, item_size, length-item_bytes, next_desc_impl-item,
}
use mach_ports_rs.Builder.{Region, CopyKind, virtual, physical}
use mach_ports_rs.Builder.Calls.{port_desc, ool_desc}
use mach_ports_rs.Builder.Message.{items_bytes, items_size, item_aligned}
use mach_ports_rs.Parser
use mach_ports_rs.Parser.{
  ParsedMsgDesc, port_recv, port_send, port_send_once, ool_data, DescParser, BodyParser,
  DescOrBodyParser, descriptor, body_left, parser_at, parsed_desc, next,
}

-- What the kernel puts into a received message: a right that moves to the receiver, or memory.
pub data Delivered : Type 0 where
  right_in : RightKind → ℕ → Delivered
  memory_in : Region → Bool → CopyKind → Delivered

abbrev pub delivered_item : Platform → Delivered → Item
delivered_item p (right_in kind name) = port_desc p name (msg_type p kind)
delivered_item p (memory_in r deallocate kind) = ool_desc p r deallocate kind

-- Names and sizes are words of 32 bits, addresses of 64; memory that is not empty has an address.
abbrev pub DeliveredFits : Delivered → Type 0
DeliveredFits (right_in kind name) = name < 2 ^ 32
DeliveredFits (memory_in r deallocate kind) =
    (r.address < 2 ^ 64) × (r.size < 2 ^ 32) × ((r.size ≡ 0) ⊎ (r.address ≢ 0))

abbrev pub AllDelivered : List Delivered → Type 0
AllDelivered [] = Unit
AllDelivered (c ∷ cs) = DeliveredFits c × AllDelivered cs

-- The parsed descriptor of each.
abbrev pub parsed_of : Delivered → ParsedMsgDesc
parsed_of (right_in send name) = port_send (from_raw_name name)
parsed_of (right_in send_once name) = port_send_once (from_raw_name name)
parsed_of (right_in recv name) = port_recv (from_raw_name name)
parsed_of (memory_in r deallocate kind) =
    ool_data (Vm.from_raw_parts (if r.size == 0 then dangling else r.address) r.size)

-- A client that takes descriptors until the body is left, at most `n` of them.
abbrev pub read_all :
    Platform → Layout → (n : ℕ) → DescOrBodyParser → Outcome (List ParsedMsgDesc × BodyParser)
read_all p l n (body_left b) = ok ([], b)
read_all p l zero (descriptor d) = panic
read_all p l (suc n) (descriptor d) = do
  (parsed, parser) ← next p l d
  (others, b) ← read_all p l n parser
  ok (parsed ∷ others, b)

module _ {p : Platform} (d : IsDarwin p) where
  kind_fits : (kind : RightKind) → msg_type p kind < 256
  kind_fits send = omega (arith, d.move_send)
  kind_fits send_once = omega (arith, d.move_send_once)
  kind_fits recv = omega (arith, d.move_receive)

  pub delivered_item-ItemFits : (c : Delivered) → DeliveredFits c → ItemFits p (delivered_item p c)
  delivered_item-ItemFits (right_in kind name) h = (
    record { name = h; disposition = kind_fits kind; type_ = omega (arith, d.port_descriptor) },
    refl,
  )
  delivered_item-ItemFits (memory_in r true virtual) h =
      (omega (arith, d.ool_descriptor, d.virtual_copy), refl)
  delivered_item-ItemFits (memory_in r true physical) h =
      (omega (arith, d.ool_descriptor, d.physical_copy), refl)
  delivered_item-ItemFits (memory_in r false virtual) h =
      (omega (arith, d.ool_descriptor, d.virtual_copy), refl)
  delivered_item-ItemFits (memory_in r false physical) h =
      (omega (arith, d.ool_descriptor, d.physical_copy), refl)

  -- Each descriptor is parsed into what it carries.
  parsed_desc-delivered :
      (c : Delivered)
      → DeliveredFits c
      → parsed_desc p (transmuted (delivered_item p c)) ≡ ok (parsed_of c)
  unfolding parsed_desc Parser.parsed_port Parser.parsed_ool
  parsed_desc-delivered (right_in send name) h = rw (d.move_send)
  parsed_desc-delivered (right_in send_once name) h = rw (d.move_send, d.move_send_once)
  parsed_desc-delivered (right_in recv name) h = rw (d.move_send, d.move_send_once, d.move_receive)
  parsed_desc-delivered (memory_in r deallocate kind) h = ground (arith, h.2)

  module _ {l : Layout} (lay : IsLayout p l) (b : Buffer) where
    abbrev pub items : List Delivered → List Item
    items = map (delivered_item p)

    pub next_length :
        (pre : List ℕ) (c : Delivered)
        → length (pre ++ item_bytes l (delivered_item p c))
          ≡ length pre + item_size (delivered_item p c)
    next_length pre c = omega (
      arith,
      length-append pre (item_bytes l (delivered_item p c)),
      length-item_bytes d lay (delivered_item p c),
    )

    -- The body is `cells`, of which `size` are the message.
    module _ (cells : List Cell) (size : ℕ) (body_eq : Buffer.body p b ≡ ok cells)
        (size_eq : body_size p b (length cells) true ≡ ok size) (within : size ≤ length cells)
        (small : size < 2 ^ 32) where
      next-delivered :
          (pre : List ℕ) (c : Delivered) (n : ℕ) (rest : List Cell)
          → cells ≡ map some pre ++ (map some (item_bytes l (delivered_item p c)) ++ rest)
          → length pre + item_size (delivered_item p c) ≤ size
          → length pre % 4 ≡ 0
          → DeliveredFits c
          → next p l (record { buffer = b; count = suc n; offset = length pre })
            ≡ ok (parsed_of c, parser_at p b n (length pre + item_size (delivered_item p c)))
      unfolding next
      next-delivered pre c n rest e le aligned fits = rw (
        (ltb_iff 0 (suc n)).1 (omega arith),
        next_desc_impl-item d lay (delivered_item p c) (delivered_item-ItemFits c fits) pre rest b
            size true (rw (← e) body_eq) (rw (← e) size_eq) le (rw (← e) within) small aligned,
        parsed_desc-delivered c fits,
        one_less,
      )
        where
          one_less : suc n - 1 ≡ n
          one_less = omega arith

      -- The descriptors that are left are read in their order, and the body parser starts behind them.
      pub read_all-delivered :
          (pre : List ℕ) (cs : List Delivered) (rest : List Cell)
          → cells ≡ map some pre ++ (map some (items_bytes l (items cs)) ++ rest)
          → length pre + items_size (items cs) ≤ size
          → length pre % 4 ≡ 0
          → AllDelivered cs
          → read_all p l (length cs) (parser_at p b (length cs) (length pre))
            ≡ ok (
              map parsed_of cs,
              record { buffer = b; offset = length pre + items_size (items cs) },
            )
      read_all-delivered pre [] rest e le aligned fits =
          ap (λ n. ok ([], record { buffer = b; offset = n })) zero_more
        where
          zero_more : length pre ≡ length pre + 0
          zero_more = omega arith
      read_all-delivered pre (c ∷ cs) rest e le aligned fits =
          rw
            (
              (ltb_iff 0 (suc (length cs))).1 (omega arith),
              next-delivered pre c (length cs) (map some (items_bytes l (items cs)) ++ rest) e'
                  (omega (arith, le)) aligned fits.0,
            )
            (put (
              rw (← next_length pre c) (
                read_all-delivered (pre ++ item_bytes l (delivered_item p c)) cs rest e''
                  (omega (arith, le, next_length pre c))
                  (omega (arith, aligned, next_length pre c, item_aligned (delivered_item p c)))
                  fits.1)))
        where
          sum :
              length pre + item_size (delivered_item p c) + items_size (items cs)
              ≡ length pre + items_size (items (c ∷ cs))
          sum = omega arith

          left : Outcome (List ParsedMsgDesc × BodyParser)
          left =
              read_all p l (length cs)
                (parser_at p b (length cs) (length pre + item_size (delivered_item p c)))

          put :
              left
                ≡ ok (
                  map parsed_of cs,
                  record {
                    buffer = b;
                    offset = length pre + item_size (delivered_item p c) + items_size (items cs);
                  },
                )
              → ◌>>=◌ {B = List ParsedMsgDesc × BodyParser} left (λ x. ok (parsed_of c ∷ x.0, x.1))
                ≡ ok (
                  map parsed_of (c ∷ cs),
                  record { buffer = b; offset = length pre + items_size (items (c ∷ cs)) },
                )
          put others =
              ap
                (λ r.
                  ◌>>=◌ {B = List ParsedMsgDesc × BodyParser} r (λ x. ok (parsed_of c ∷ x.0, x.1)))
                others
              ∙ ap (λ n. ok (map parsed_of (c ∷ cs), record { buffer = b; offset = n })) sum

          bytes : List ℕ
          bytes = item_bytes l (delivered_item p c)

          e' :
              cells
              ≡ map some pre ++ (map some bytes ++ (map some (items_bytes l (items cs)) ++ rest))
          e' =
              e
              ∙ ap (λ r. map some pre ++ r)
                  (rw (map-append {A = ℕ} {B = Cell} some bytes (items_bytes l (items cs)))
                    (append_assoc (map some bytes) (map some (items_bytes l (items cs))) rest))

          e'' : cells ≡ map some (pre ++ bytes) ++ (map some (items_bytes l (items cs)) ++ rest)
          e'' =
              e'
              ∙ rw (map-append {A = ℕ} {B = Cell} some pre bytes) (
                  sym (
                    append_assoc (map some pre) (map some bytes)
                      (map some (items_bytes l (items cs)) ++ rest)))
