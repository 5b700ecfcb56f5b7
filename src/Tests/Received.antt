-- ===== src/Tests/Received.antt =====
-- The theorems on received messages at concrete values.
use mach_ports_rs.Prelude.{
  ℕ, ◌≡◌, inr, refl, true, none, some, List, [], ◌∷◌, ◌++◌, map, replicate, ok, arith,
}
use mach_ports_rs.MsgBits.Fields.{Fields, fields, encode}
use mach_ports_rs.Kernel.{◌>>◌}
use mach_ports_rs.Rights.{send, recv, any_send_once, from_raw_name}
use mach_ports_rs.Vm
use mach_ports_rs.Buffer
use mach_ports_rs.Buffer.{Buffer, zero_header, Cell}
use mach_ports_rs.Builder.{Region, virtual}
use mach_ports_rs.Builder.Message.{desc_area}
use mach_ports_rs.Parser.{port_recv, port_send, ool_data}
use mach_ports_rs.Parser.Discard
use mach_ports_rs.Parser.Discard.{drop_reply_right, drop_voucher_right}
use mach_ports_rs.Parser.Roundtrip.{Delivered, right_in, memory_in, delivered_item}
use mach_ports_rs.Parser.Incoming.{once_reply, reply_of, voucher_of, IsReceived, parse_message}
use mach_ports_rs.Parser.Received.{parse_message-received}
use mach_ports_rs.Parser.Unread.{discard_all, drop-discard_all}
use mach_ports_rs.Tests.Layouts.{darwin, darwin-IsDarwin, packed, packed-IsLayout}
use mach_ports_rs.Tests.Setup.{counting}

abbrev pub region : Region
region = record { address = 4096; size = 100 }

abbrev pub carried : List Delivered
carried = right_in send 7 ∷ memory_in region true virtual ∷ right_in recv 9 ∷ []

abbrev pub text : List ℕ
text = 104 ∷ 105 ∷ 33 ∷ []

abbrev pub carried_bits : Fields
carried_bits = fields true 18 0 17

-- 47 bytes of a message behind the header, and cells that were never written.
abbrev pub received : Buffer
received = record {
  header = record {
    msgh_bits = encode carried_bits;
    msgh_size = 71;
    msgh_remote_port = 3;
    msgh_local_port = 0;
    msgh_voucher_port = 5;
    msgh_id = 42;
  };
  mem =
      map some (desc_area packed (map (delivered_item darwin) carried) ++ text)
      ++ replicate 25 none;
  len = 71;
  capacity = 71;
}

received-IsReceived : IsReceived darwin packed received (once_reply 3) (some 5) carried text
unfolding Buffer.body Buffer.to_ne_bytes
received-IsReceived = record {
  fields = carried_bits;
  rest = replicate 24 none;
  body_eq = refl;
  size_eq = refl;
  small = omega arith;
  bits = refl;
  fit = record { remote = omega arith; local = omega arith; voucher = omega arith };
  complex = refl;
  reply_in = (refl, omega arith, refl);
  voucher_in = (refl, omega arith, inr refl);
  all = (omega arith, ((omega arith, omega arith, inr (omega arith)), (omega arith, tt)));
}

parse_message_example :
    parse_message darwin packed 3 received
    ≡ ok (
      record {
        id = 42;
        reply_right = some (any_send_once (from_raw_name 3));
        voucher = some (from_raw_name 5);
      },
      port_send (from_raw_name 7)
          ∷ ool_data (Vm.from_raw_parts 4096 100)
          ∷ port_recv (from_raw_name 9)
          ∷ [],
      map some text,
    )
parse_message_example =
    parse_message-received darwin-IsDarwin packed-IsLayout carried received-IsReceived

drop_unread_example : Discard.drop darwin counting packed received ≡ (do
  drop_reply_right darwin counting packed (reply_of (once_reply 3))
  drop_voucher_right darwin counting packed (voucher_of (some 5))
  discard_all darwin counting carried)
drop_unread_example =
    drop-discard_all darwin-IsDarwin packed-IsLayout counting carried received-IsReceived
