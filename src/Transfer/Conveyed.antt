-- ===== src/Transfer/Conveyed.antt =====
-- What the kernel makes of a message on its way: of the descriptors and of the reply port.
use mach_ports_rs.Prelude.{
  ℕ, suc, ◌≡◌, refl, ap, ◌||◌, Option, none, some, List, [], ◌∷◌, map, length, ◌==◌, if◌then◌else◌,
}
use mach_ports_rs.Abi.{Platform}
use mach_ports_rs.Rights.{RightKind, AnySendRight, any_send, any_send_once, send, send_once, recv}
use mach_ports_rs.Desc.Read.{Item, port_item, ool_item}
use mach_ports_rs.Reply.Asked.{Asked, no_answer, answer_bits}
use mach_ports_rs.Parser.{ParsedMsgDesc, port_recv, port_send, port_send_once, ool_data}
use mach_ports_rs.Parser.Roundtrip.{Delivered, right_in, memory_in, parsed_of}
use mach_ports_rs.Parser.Incoming.{ReplyIn, no_reply, send_reply, once_reply, reply_of}

-- The right that a receiver gets for a disposition, as mach/message.h documents it.
abbrev pub received_kind : Platform → ℕ → Option RightKind
received_kind p disposition =
    if disposition == p.move_send || (disposition == p.copy_send || disposition == p.make_send)
    then some send
    else if disposition == p.move_send_once || disposition == p.make_send_once
    then some send_once
    else if disposition == p.move_receive || disposition == p.copy_receive
    then some recv
    else none

-- A descriptor that is sent and what is delivered for it: a right of its kind under any name, or memory
-- of its size at any address.
abbrev pub ItemConveyed : Platform → Item → Delivered → Type 0
ItemConveyed p (port_item x) (right_in kind name) = received_kind p x.disposition ≡ some kind
ItemConveyed p (port_item x) (memory_in r deallocate kind) = ⊥
ItemConveyed p (ool_item x) (right_in kind name) = ⊥
ItemConveyed p (ool_item x) (memory_in r deallocate kind) = r.size ≡ x.size

abbrev pub Conveyed : Platform → List Item → List Delivered → Type 0
Conveyed p [] [] = Unit
Conveyed p [] (c ∷ cs) = ⊥
Conveyed p (i ∷ is) [] = ⊥
Conveyed p (i ∷ is) (c ∷ cs) = ItemConveyed p i c × Conveyed p is cs

-- A descriptor that is built and the one that is parsed.
abbrev pub ItemArrives : Platform → Item → ParsedMsgDesc → Type 0
ItemArrives p (port_item x) (port_send right) = received_kind p x.disposition ≡ some send
ItemArrives p (port_item x) (port_send_once right) = received_kind p x.disposition ≡ some send_once
ItemArrives p (port_item x) (port_recv right) = received_kind p x.disposition ≡ some recv
ItemArrives p (port_item x) (ool_data b) = ⊥
ItemArrives p (ool_item x) (ool_data b) = b.capacity ≡ x.size
ItemArrives p (ool_item x) (port_send right) = ⊥
ItemArrives p (ool_item x) (port_send_once right) = ⊥
ItemArrives p (ool_item x) (port_recv right) = ⊥

abbrev pub Arrives : Platform → List Item → List ParsedMsgDesc → Type 0
Arrives p [] [] = Unit
Arrives p [] (x ∷ xs) = ⊥
Arrives p (i ∷ is) [] = ⊥
Arrives p (i ∷ is) (x ∷ xs) = ItemArrives p i x × Arrives p is xs

ItemConveyed-arrives :
    (p : Platform) (i : Item) (c : Delivered) → ItemConveyed p i c → ItemArrives p i (parsed_of c)
ItemConveyed-arrives p (port_item x) (right_in send name) h = h
ItemConveyed-arrives p (port_item x) (right_in send_once name) h = h
ItemConveyed-arrives p (port_item x) (right_in recv name) h = h
ItemConveyed-arrives p (port_item x) (memory_in r deallocate kind) h = absurd h
ItemConveyed-arrives p (ool_item x) (right_in kind name) h = absurd h
ItemConveyed-arrives p (ool_item x) (memory_in r deallocate kind) h = h

pub Conveyed-Arrives :
    (p : Platform) (is : List Item) (cs : List Delivered)
    → Conveyed p is cs
    → Arrives p is (map parsed_of cs)
Conveyed-Arrives p [] [] h = tt
Conveyed-Arrives p [] (c ∷ cs) h = absurd h
Conveyed-Arrives p (i ∷ is) [] h = absurd h
Conveyed-Arrives p (i ∷ is) (c ∷ cs) h =
    (ItemConveyed-arrives p i c h.0, Conveyed-Arrives p is cs h.1)

pub Conveyed-length :
    (p : Platform) (is : List Item) (cs : List Delivered) → Conveyed p is cs → length is ≡ length cs
Conveyed-length p [] [] h = refl
Conveyed-length p [] (c ∷ cs) h = absurd h
Conveyed-length p (i ∷ is) [] h = absurd h
Conveyed-length p (i ∷ is) (c ∷ cs) h = ap suc (Conveyed-length p is cs h.1)

-- The kind of right to answer by that the receiver gets.
abbrev pub expected : Platform → Asked → Option RightKind
expected p no_answer = none
expected p asked = received_kind p (answer_bits p asked)

abbrev pub reply_kind : ReplyIn → Option RightKind
reply_kind no_reply = none
reply_kind (send_reply name) = some send
reply_kind (once_reply name) = some send_once

abbrev pub right_kind : Option AnySendRight → Option RightKind
right_kind none = none
right_kind (some (any_send right)) = some send
right_kind (some (any_send_once right)) = some send_once

pub right_kind-reply_of : (reply : ReplyIn) → right_kind (reply_of reply) ≡ reply_kind reply
right_kind-reply_of no_reply = refl
right_kind-reply_of (send_reply name) = refl
right_kind-reply_of (once_reply name) = refl
