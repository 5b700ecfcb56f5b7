-- ===== src/Tests/Exchange.antt =====
-- A message on its whole way, at concrete values.
use mach_ports_rs.Prelude.{
  refl, inr, true, none, List, [], ◌∷◌, ◌++◌, map, replicate, ◌==◌, if◌then◌else◌, Returns, arith,
}
use mach_ports_rs.MsgBits.Fields.{fields, encode}
use mach_ports_rs.Kernel.{Kernel, Received, ◌>>=◌}
use mach_ports_rs.Rights.{send, from_raw_name}
use mach_ports_rs.Buffer
use mach_ports_rs.Buffer.{zero_header}
use mach_ports_rs.Builder.{virtual}
use mach_ports_rs.Builder.Message.{desc_area}
use mach_ports_rs.Builder.Draft.{Draft, append_moved, append_ool, append_inline, set_id}
use mach_ports_rs.Parser.Roundtrip.{Delivered, right_in, memory_in, delivered_item}
use mach_ports_rs.Parser.Incoming.{once_reply}
use mach_ports_rs.Transfer.Arrived.{IsDelivery, recv_call}
use mach_ports_rs.Reply.Asked.{Asked, no_answer, answer_made}
use mach_ports_rs.Reply.Requests.{Request, plain, reply, asked_of, draft_of, build_requests}
use mach_ports_rs.Transfer.Exchange.{IsConveyed, IsRead, exchange, built-IsRead, sent_header}
use mach_ports_rs.Tests.Layouts.{darwin, darwin-IsDarwin, darwin-Served, packed, packed-IsLayout}
use mach_ports_rs.Tests.Setup.{Counts, counting}
use mach_ports_rs.Tests.Transfers.{empty, empty-Holds, no_counts}

-- The answer is to come by a send once right.
abbrev requests : List Request
requests =
    plain (append_moved send (from_raw_name 100))
    ∷ reply (answer_made (from_raw_name 8) true)
    ∷ plain (append_inline (104 ∷ 105 ∷ []))
    ∷ plain (append_ool (record { address = 8192; size = 100 }) virtual)
    ∷ plain (set_id 42)
    ∷ []

abbrev draft : Draft
draft = draft_of darwin requests

abbrev asked : Asked
asked = asked_of no_answer requests

-- What the receiver gets: other names and addresses.
abbrev carried : List Delivered
carried = right_in send 7 ∷ memory_in (record { address = 4096; size = 100 }) true virtual ∷ []

abbrev arriving : Received
arriving = record {
  header = record zero_header {
    msgh_bits = encode (fields true 18 0 0);
    msgh_remote_port = 12;
    msgh_size = 58;
    msgh_id = 42;
  };
  bytes =
      (desc_area packed (map (delivered_item darwin) carried) ++ (104 ∷ 105 ∷ [])) ++ replicate 8 0;
}

-- A kernel that takes every message, and delivers this one.
abbrev relaying : Kernel Counts
relaying = record counting {
  mach_msg = λ c s.
      if c.option == 1 then (0, record { header = c.header; bytes = [] }, s) else (0, arriving, s);
}

arriving-IsDelivery :
    IsDelivery darwin packed arriving (once_reply 12) none carried (104 ∷ 105 ∷ [])
unfolding Buffer.to_ne_bytes
arriving-IsDelivery = record {
  fields = fields true 18 0 0;
  trailer = replicate 8 0;
  bytes_eq = refl;
  size_eq = refl;
  bits = refl;
  fit = record { remote = omega arith; local = omega arith; voucher = omega arith };
  complex = refl;
  reply_in = (refl, omega arith, refl);
  voucher_in = refl;
  all = (omega arith, ((omega arith, omega arith, inr (omega arith)), tt));
}

draft-IsConveyed :
    IsConveyed darwin packed relaying no_counts asked draft 3 (recv_call darwin zero_header 6) 96
unfolding Buffer.to_ne_bytes
draft-IsConveyed = record {
  left = sent_header darwin asked draft 3;
  received = arriving;
  between = no_counts;
  behind = no_counts;
  reply = once_reply 12;
  answer = refl;
  carried = carried;
  accepted = refl;
  delivered = refl;
  delivery = arriving-IsDelivery;
  id = refl;
  conveyed = (refl, (refl, tt));
  fits = omega arith;
  size_fits = omega arith;
}

built-IsRead_example : Returns (IsRead darwin asked draft) (
    (do
      b ← build_requests darwin relaying packed 96 requests
      exchange darwin relaying packed (from_raw_name 3) (from_raw_name 6) b empty 2)
      no_counts)
built-IsRead_example =
    built-IsRead darwin-IsDarwin darwin-Served packed-IsLayout relaying 96 requests
      (from_raw_name 3) (from_raw_name 6) no_counts no_counts (omega arith)
      (tt, (tt, (omega arith, (tt, tt)))) (tt, tt) (omega arith) empty-Holds refl draft-IsConveyed
