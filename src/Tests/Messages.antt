-- ===== src/Tests/Messages.antt =====
-- The theorems on messages at concrete values.
use mach_ports_rs.Prelude.{
  ℕ, ◌≡◌, refl, true, false, none, some, List, [], ◌∷◌, ◌++◌, map, replicate, ok, arith,
}
use mach_ports_rs.MsgBits.Fields.{Fields, fields, encode}
use mach_ports_rs.Kernel.{◌>>◌, pure}
use mach_ports_rs.Rights.{send, send_once, from_raw_name}
use mach_ports_rs.Buffer
use mach_ports_rs.Buffer.{Buffer, Header, zero_header}
use mach_ports_rs.Desc.{body_size, next_desc_impl}
use mach_ports_rs.Desc.Read.{Item, transmuted, item_bytes, next_desc_impl-item}
use mach_ports_rs.Builder.{Builder, Region, virtual}
use mach_ports_rs.Builder.Message.{Builds, desc_area}
use mach_ports_rs.Builder.Calls.{port_desc, ool_desc}
use mach_ports_rs.Reply
use mach_ports_rs.Reply.Effect.{with_reply}
use mach_ports_rs.Reply.Asked.{Asked, answer_moved, answer_back}
use mach_ports_rs.Reply.Replaced.{
  HasReply, set_kept_reply_port-answer_back, set_moved_reply_port-answer_back,
}
use mach_ports_rs.Release
use mach_ports_rs.Release.Contents.{Content, moved, made, consumed, item_of, AllFit, give_all_back}
use mach_ports_rs.Release.Effect.{cleared, give_reply_back, drop-give_all_back}
use mach_ports_rs.Tests.Layouts.{darwin, darwin-IsDarwin, packed, packed-IsLayout}
use mach_ports_rs.Tests.Setup.{counting}

abbrev pub pages : Region
pages = record { address = 4096; size = 4096 }

-- A moved send right, a send right to be made, and memory to be given away.
abbrev pub contents : List Content
contents = moved send 7 ∷ made false 9 ∷ consumed pages virtual ∷ []

pub contents-AllFit : AllFit contents
contents-AllFit = (omega arith, (omega arith, (((omega arith, omega arith), omega arith), tt)))

abbrev pub descs : List Item
descs = map (item_of darwin) contents

abbrev pub inline : List ℕ
inline = 104 ∷ 105 ∷ []

-- A complex message with a reply port that is moved.
abbrev pub bits : Fields
bits = fields true 0 17 0

abbrev pub header : Header
header = record zero_header { msgh_bits = encode bits; msgh_local_port = 3 }

abbrev pub message : Builder
message = record {
  buffer = record {
    header = header;
    mem = map some (desc_area packed descs ++ inline) ++ replicate 18 none;
    len = 46;
    capacity = 64;
  };
  inline_data_off = 44;
}

pub message-Builds : Builds darwin packed message bits descs inline
unfolding Buffer.layout_for_capacity Buffer.to_ne_bytes
message-Builds = record {
  holds = record {
    rest = replicate 18 none;
    mem_eq = refl;
    len_eq = refl;
    len_le = omega arith;
    alloc_eq = refl;
    cap_lt = omega arith;
  };
  off = refl;
  bits = refl;
  fit = record { remote = omega arith; local = omega arith; voucher = omega arith };
  complex = refl;
}

drop_all_example : Release.drop darwin counting packed message ≡ (do
  give_reply_back darwin counting header bits
  give_all_back darwin counting contents
  pure (record (message.buffer) { header = cleared darwin header bits }))
drop_all_example =
    drop-give_all_back darwin-IsDarwin packed-IsLayout counting message bits contents inline
      message-Builds contents-AllFit refl refl refl

-- What stands behind the first descriptor.
abbrev behind : List ℕ
behind =
    item_bytes packed (port_desc darwin 9 20)
    ++ (item_bytes packed (ool_desc darwin pages true virtual) ++ inline)

next_desc_example :
    next_desc_impl darwin packed message.buffer 4 false
    ≡ ok (transmuted (port_desc darwin 7 17), 16)
unfolding Buffer.body Buffer.to_ne_bytes
next_desc_example =
    next_desc_impl-item darwin-IsDarwin packed-IsLayout (port_desc darwin 7 17)
      (record { name = omega arith; disposition = omega arith; type_ = omega arith }, refl)
      (Buffer.to_ne_bytes 3) (map some behind) message.buffer 46 false refl
      (unfold body_size in refl) (omega arith) (omega arith) (omega arith) refl

-- The send right 3 was moved in.
abbrev old_reply : Asked
old_reply = answer_moved send tt (from_raw_name 3)

message-HasReply : HasReply darwin message bits old_reply
message-HasReply = record { name = refl; bits = refl; named = λ e. absurd (omega (arith, e)) }

set_kept_example :
    (Reply.set_made_reply_port darwin counting message (from_raw_name 9) true ≡ (do
      answer_back darwin counting old_reply
      pure (with_reply message (fields true 0 21 0) 9)))
    × (Reply.set_copied_reply_port darwin counting message (from_raw_name 7) ≡ (do
      answer_back darwin counting old_reply
      pure (with_reply message (fields true 0 19 0) 7)))
    × Builds darwin packed
        (with_reply message (fields true 0 21 0) 9)
        (fields true 0 21 0)
        descs
        inline
    × Builds darwin packed
        (with_reply message (fields true 0 19 0) 7)
        (fields true 0 19 0)
        descs
        inline
set_kept_example =
    set_kept_reply_port-answer_back darwin-IsDarwin counting message-Builds message-HasReply
      (from_raw_name 9) true (from_raw_name 7)

set_moved_example :
    (Reply.set_moved_reply_port darwin counting {kind = send_once} tt message (from_raw_name 7)
      ≡ (do
        answer_back darwin counting old_reply
        pure (with_reply message (fields true 0 18 0) 7)))
    × Builds darwin packed
        (with_reply message (fields true 0 18 0) 7)
        (fields true 0 18 0)
        descs
        inline
set_moved_example =
    set_moved_reply_port-answer_back darwin-IsDarwin counting message-Builds message-HasReply
      {kind = send_once} tt (from_raw_name 7)
