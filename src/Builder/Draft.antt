-- ===== src/Builder/Draft.antt =====
-- Calls of a builder in sequence, and the message on lists that they describe.
use mach_ports_rs.Prelude.{
  ℕ, ◌+◌, ◌^◌, ◌<◌, ◌≤◌, ◌≡◌, ap, Bool, true, false, List, [], ◌∷◌, ◌++◌, length, length-append,
  take, drop, take-append-drop, if◌then◌else◌, Outcome, ok, arith,
}
use mach_ports_rs.Abi.{Platform}
use mach_ports_rs.MsgBits.Fields.{Fields, encode}
use mach_ports_rs.Buffer.{Header}
use mach_ports_rs.Rights.{RightKind, Right, SendRight, RecvRight, msg_type}
use mach_ports_rs.Desc.{Layout}
use mach_ports_rs.Desc.Read.{Item, item_size}
use mach_ports_rs.Builder
use mach_ports_rs.Builder.{Builder, Region, CopyKind}
use mach_ports_rs.Builder.Message.{some_descs, items_size, Builds}
use mach_ports_rs.Builder.Calls.{port_desc, ool_desc}

-- The calls of a builder that make no call of the kernel, with their arguments.
pub data Call : Type 0 where
  append_made : RecvRight → Bool → Call
  append_copied : SendRight → Call
  append_moved : (kind : RightKind) → Right kind → Call
  append_ool : Region → CopyKind → Call
  append_consumed_ool : Region → CopyKind → Call
  append_inline : List ℕ → Call
  insert_inline : (at : ℕ) → List ℕ → Call
  set_id : ℕ → Call

unfoldable pub perform : Platform → Layout → Builder → Call → Outcome Builder
perform p l b (append_made right once) = Builder.append_made_send_right p l b right once
perform p l b (append_copied right) = Builder.append_copied_send_right p l b right
perform p l b (append_moved kind right) = Builder.append_moved_right p l b right
perform p l b (append_ool r kind) = Builder.append_ool_data p l b r kind
perform p l b (append_consumed_ool r kind) = Builder.append_consumed_ool_data p l b r kind
perform p l b (append_inline bytes) = Builder.append_inline_data p b bytes
perform p l b (insert_inline at bytes) = Builder.insert_inline_data p b at bytes
perform p l b (set_id id) = ok (Builder.set_id b id)

-- The message that is meant: descriptors in their order, inline data, and an identifier.
pub record Draft : Type 0 where
  pub descs : List Item
  pub inline : List ℕ
  pub id : ℕ

abbrev pub with_desc : Draft → Item → Draft
with_desc m i = record m { descs = m.descs ++ (i ∷ []) }

-- What each call adds to it.
abbrev pub amend : Platform → Draft → Call → Draft
amend p m (append_made right once) =
    with_desc m (port_desc p right.name (if once then p.make_send_once else p.make_send))
amend p m (append_copied right) = with_desc m (port_desc p right.name p.copy_send)
amend p m (append_moved kind right) = with_desc m (port_desc p right.name (msg_type p kind))
amend p m (append_ool r kind) = with_desc m (ool_desc p r false kind)
amend p m (append_consumed_ool r kind) = with_desc m (ool_desc p r true kind)
amend p m (append_inline bytes) = record m { inline = m.inline ++ bytes }
amend p m (insert_inline at bytes) = record m {
  inline = take at m.inline ++ (bytes ++ drop at m.inline);
}
amend p m (set_id id) = record m { id = id }

abbrev pub amend_all : Platform → Draft → List Call → Draft
amend_all p m [] = m
amend_all p m (c ∷ cs) = amend_all p (amend p m c) cs

-- Regions are below 2 ^ 32 bytes, and data is inserted within the inline data.
abbrev pub CallFits : Draft → Call → Type 0
CallFits m (append_ool r kind) = r.size < 2 ^ 32
CallFits m (append_consumed_ool r kind) = r.size < 2 ^ 32
CallFits m (insert_inline at bytes) = at ≤ length m.inline
CallFits m _ = Unit

abbrev pub CallsFit : Platform → Draft → List Call → Type 0
CallsFit p m [] = Unit
CallsFit p m (c ∷ cs) = CallFits m c × CallsFit p (amend p m c) cs

-- A bound on the bytes behind the header.
abbrev pub draft_size : Draft → ℕ
draft_size m = 8 + items_size m.descs + length m.inline

-- The builder holds the draft, under the header that it began with, in the capacity that it began with.
pub record Realizes (p : Platform) (l : Layout) (h : Header) (f : Fields) (cap : ℕ) (m : Draft)
    (b : Builder) : Type 0 where
  pub builds : Builds p l b (record f { complex = some_descs m.descs }) m.descs m.inline
  pub capacity : b.buffer.capacity ≡ cap
  pub header :
      b.buffer.header
      ≡ record h { msgh_id = m.id; msgh_bits = encode (record f { complex = some_descs m.descs }) }

pub items_size_snoc :
    (is : List Item) (i : Item) → items_size (is ++ (i ∷ [])) ≡ items_size is + item_size i
items_size_snoc [] i = omega arith
items_size_snoc (j ∷ is) i = omega (arith, items_size_snoc is i)

pub length-cut :
    (at : ℕ) (xs ys : List ℕ) → length (take at xs ++ (ys ++ drop at xs)) ≡ length xs + length ys
length-cut at xs ys = omega (
  arith,
  length-append (take at xs) (ys ++ drop at xs),
  length-append ys (drop at xs),
  length-append (take at xs) (drop at xs),
  ap length (take-append-drop at xs),
)

draft_size-amend : (p : Platform) (m : Draft) (c : Call) → draft_size m ≤ draft_size (amend p m c)
draft_size-amend p m (append_made right once) = omega (
  arith,
  items_size_snoc m.descs (port_desc p right.name (if once then p.make_send_once else p.make_send)),
)
draft_size-amend p m (append_copied right) =
    omega (arith, items_size_snoc m.descs (port_desc p right.name p.copy_send))
draft_size-amend p m (append_moved kind right) =
    omega (arith, items_size_snoc m.descs (port_desc p right.name (msg_type p kind)))
draft_size-amend p m (append_ool r kind) =
    omega (arith, items_size_snoc m.descs (ool_desc p r false kind))
draft_size-amend p m (append_consumed_ool r kind) =
    omega (arith, items_size_snoc m.descs (ool_desc p r true kind))
draft_size-amend p m (append_inline bytes) = omega (arith, length-append m.inline bytes)
draft_size-amend p m (insert_inline at bytes) = omega (arith, length-cut at m.inline bytes)
draft_size-amend p m (set_id id) = omega arith

pub draft_size-amend_all :
    (p : Platform) (m : Draft) (cs : List Call) → draft_size m ≤ draft_size (amend_all p m cs)
draft_size-amend_all p m [] = omega arith
draft_size-amend_all p m (c ∷ cs) =
    omega (arith, draft_size-amend p m c, draft_size-amend_all p (amend p m c) cs)
