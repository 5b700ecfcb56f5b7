-- ===== src/Parser/Unread.antt =====
-- What becomes of a received message that is dropped before its header is parsed.
use mathlib.Core.Path.{fun_ext, subst}
use mach_ports_rs.Prelude.{
  ℕ, suc, ◌+◌, ◌%◌, ◌^◌, ◌<◌, ◌≤◌, ◌≡◌, refl, sym, ap, ◌∙◌, true, Option, some, List, [], ◌∷◌, ◌++◌,
  map, map-append, append_assoc, length, ltb_iff, ok, panic, arith,
}
use mach_ports_rs.Abi.{Platform, IsDarwin}
use mach_ports_rs.Kernel.{Kernel, M, ◌>>◌, pure, lift}
use mach_ports_rs.Rights
use mach_ports_rs.Rights.{send, send_once, recv, from_raw_name}
use mach_ports_rs.Buffer
use mach_ports_rs.Buffer.{Buffer, Cell, to_ne_bytes}
use mach_ports_rs.Desc.{Layout, IsLayout, body_size}
use mach_ports_rs.Desc.Read.{item_bytes, item_size, transmuted, next_desc_impl-item}
use mach_ports_rs.Builder.Message.{items_bytes, items_size, item_aligned, length-to_ne_bytes}
use mach_ports_rs.Parser.{parse_header_impl}
use mach_ports_rs.Parser.Discard
use mach_ports_rs.Parser.Discard.{
  drop_unread_desc, drop_unread, drop_reply_right, drop_voucher_right,
}
use mach_ports_rs.Parser.Roundtrip.{
  Delivered, right_in, memory_in, delivered_item, AllDelivered, delivered_item-ItemFits,
  next_length,
}
use mach_ports_rs.Parser.Incoming.{ReplyIn, reply_of, voucher_of, IsReceived}
use mach_ports_rs.Parser.Opened.{
  reply_parsed, voucher_parsed, count_read, cells, size, size_read, length-cells, size_small,
  body_cells,
}
use mach_ports_rs.Parser.Received.{cells_split, size_items}

module _ {S : Type 0} (p : Platform) (k : Kernel S) where
  -- Rights are dropped; the source has no code yet for memory, and panics.
  abbrev pub discard : Delivered → M S (Unit {0})
  discard (right_in kind name) = Rights.drop p k {kind = kind} (from_raw_name name)
  discard (memory_in r deallocate kind) = lift panic

  abbrev pub discard_all : List Delivered → M S (Unit {0})
  discard_all [] = pure tt
  discard_all (c ∷ cs) = discard c >> discard_all cs

module _ {p : Platform} (d : IsDarwin p) {l : Layout} (lay : IsLayout p l) {S : Type 0}
    (k : Kernel S) where
  drop_unread_desc-delivered :
      (c : Delivered) → drop_unread_desc p k l (transmuted (delivered_item p c)) ≡ discard p k c
  unfolding drop_unread_desc
  drop_unread_desc-delivered (right_in send name) = rw (d.move_send)
  drop_unread_desc-delivered (right_in send_once name) = rw (d.move_send, d.move_send_once)
  drop_unread_desc-delivered (right_in recv name) =
      rw (d.move_send, d.move_send_once, d.move_receive)
  drop_unread_desc-delivered (memory_in r deallocate kind) = refl

  module _ (b : Buffer) (whole : List Cell) (bound : ℕ) (body_eq : Buffer.body p b ≡ ok whole)
      (size_eq : body_size p b (length whole) true ≡ ok bound) (within : bound ≤ length whole)
      (small : bound < 2 ^ 32) where
    drop_unread-delivered :
        (pre : List ℕ) (cs : List Delivered) (rest : List Cell)
        → whole ≡ map some pre ++ (map some (items_bytes l (map (delivered_item p) cs)) ++ rest)
        → length pre + items_size (map (delivered_item p) cs) ≤ bound
        → length pre % 4 ≡ 0
        → AllDelivered cs
        → drop_unread p k l b (length cs) (length pre) ≡ discard_all p k cs
    unfolding drop_unread
    drop_unread-delivered pre [] rest e le aligned fits = refl
    drop_unread-delivered pre (c ∷ cs) rest e le aligned fits = first (
        rw (← next_length d lay b pre c) (
          drop_unread-delivered (pre ++ item_bytes l (delivered_item p c)) cs rest e''
            (omega (arith, le, next_length d lay b pre c))
            (omega (arith, aligned, next_length d lay b pre c, item_aligned (delivered_item p c)))
            fits.1))
      where
        bytes : List ℕ
        bytes = item_bytes l (delivered_item p c)

        more : List Cell
        more = map some (items_bytes l (map (delivered_item p) cs)) ++ rest

        e' : whole ≡ map some pre ++ (map some bytes ++ more)
        e' =
            e
            ∙ ap (λ r. map some pre ++ r)
                (rw
                  (map-append {A = ℕ} {B = Cell} some bytes
                    (items_bytes l (map (delivered_item p) cs)))
                  (append_assoc (map some bytes)
                    (map some (items_bytes l (map (delivered_item p) cs))) rest))

        e'' : whole ≡ map some (pre ++ bytes) ++ more
        e'' =
            e'
            ∙ rw (map-append {A = ℕ} {B = Cell} some pre bytes)
                (sym (append_assoc (map some pre) (map some bytes) more))

        first :
            drop_unread p k l b (length cs) (length pre + item_size (delivered_item p c))
              ≡ discard_all p k cs
            → drop_unread p k l b (suc (length cs)) (length pre) ≡ discard_all p k (c ∷ cs)
        first others = fun_ext λ s. rw (
          next_desc_impl-item d lay (delivered_item p c) (delivered_item-ItemFits d c fits.0) pre
              more b bound true (rw (← e') body_eq) (rw (← e') size_eq) (omega (arith, le))
              (rw (← e') within) small aligned,
          drop_unread_desc-delivered c,
          others,
        )

  -- Dropping a MsgParser over a received message whose header was not parsed drops the reply right,
  -- then the voucher, then each right of the descriptors in their order, and makes no other kernel
  -- call; at the first descriptor of memory it panics.
  pub drop-discard_all :
      {b : Buffer} {reply : ReplyIn} {voucher : Option ℕ} (cs : List Delivered) {inline : List ℕ}
      → IsReceived p l b reply voucher cs inline
      → Discard.drop p k l b ≡ (do
        drop_reply_right p k l (reply_of reply)
        drop_voucher_right p k l (voucher_of voucher)
        discard_all p k cs)
  unfolding Discard.drop parse_header_impl Discard.drop_parser
  drop-discard_all {b} {reply} {voucher} [] h = fun_ext λ s. rw (
    voucher_parsed d lay h voucher h.voucher_in,
    reply_parsed d lay h reply h.reply_in,
    count_read d lay h,
  )
  drop-discard_all {b} {reply} {voucher} (c ∷ cs) {inline} h = fun_ext λ s.
      rw
        (
          voucher_parsed d lay h voucher h.voucher_in,
          reply_parsed d lay h reply h.reply_in,
          count_read d lay h,
          (ltb_iff 0 (suc (length cs))).1 (omega arith),
        )
        (ap
          (λ m.
            (drop_reply_right p k l (reply_of reply)
                >> (drop_voucher_right p k l (voucher_of voucher) >> m))
              s)
          loop)
    where
      n : ℕ
      n = length (map (delivered_item p) (c ∷ cs))

      loop : drop_unread p k l b (suc (length cs)) 4 ≡ discard_all p k (c ∷ cs)
      loop =
          subst (λ o. drop_unread p k l b (suc (length cs)) o ≡ discard_all p k (c ∷ cs))
            (length-to_ne_bytes n)
            (drop_unread-delivered b (cells d lay h) (size d lay h) (body_cells d lay h)
              (size_read d lay h (length (cells d lay h))) (omega (arith, length-cells d lay h))
              (size_small d lay h) (to_ne_bytes n) (c ∷ cs) (map some inline ++ h.rest)
              (cells_split d lay c cs h)
              (omega (arith, size_items d lay c cs h, length-to_ne_bytes n))
              (omega (arith, length-to_ne_bytes n)) h.all)
