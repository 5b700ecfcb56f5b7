-- ===== src/Tests/Transfers.antt =====
-- The theorems on sending and receiving at concrete values.
use mach_ports_rs.Prelude.{
  ℕ, ok, panic, ◌≢◌, ◌<◌, ◌≡◌, inr, refl, none, some, [], ◌++◌, map, replicate, undefined, Returns,
  arith,
}
use mach_ports_rs.Kernel.{Kernel, Received}
use mach_ports_rs.Rights.{from_raw_name}
use mach_ports_rs.Buffer
use mach_ports_rs.Buffer.{Buffer, zero_header}
use mach_ports_rs.Buffer.Holds.{Holds}
use mach_ports_rs.Builder.Message.{desc_area}
use mach_ports_rs.Parser.Roundtrip.{delivered_item}
use mach_ports_rs.Parser.Incoming.{once_reply, IsReceived}
use mach_ports_rs.Transfer
use mach_ports_rs.Transfer.Sent.{addressed, hand_over, sends-hand_over}
use mach_ports_rs.Transfer.Arrived.{IsDelivery, IsDone, recv-IsReceived, recv_overflows}
use mach_ports_rs.Transfer.{failed}
use mach_ports_rs.Transfer.Refused.{recv_refuses}
use mach_ports_rs.Tests.Layouts.{darwin, darwin-IsDarwin, packed}
use mach_ports_rs.Tests.Setup.{Counts, counting}
use mach_ports_rs.Tests.Storage.{three, three-Holds}
use mach_ports_rs.Tests.Messages.{message, bits, descs, inline, message-Builds}
use mach_ports_rs.Tests.Received.{received, carried, carried_bits, text}

sends_example :
    (Transfer.send darwin counting (from_raw_name 3) message
      ≡ hand_over darwin counting (addressed message bits 3 19) (desc_area packed descs ++ inline))
    × (Transfer.send_once darwin counting (from_raw_name 4) message
        ≡ hand_over darwin counting
            (addressed message bits 4 18)
            (desc_area packed descs ++ inline))
sends_example =
    sends-hand_over darwin-IsDarwin counting message-Builds (from_raw_name 3) (from_raw_name 4)

-- A kernel that delivers this message to every receive.
abbrev delivering : Received → Kernel Counts
delivering r = record counting { mach_msg = λ c s. (0, r, s) }

abbrev pub no_counts : Counts
no_counts m r = 0

abbrev pub empty : Buffer
empty = record { header = zero_header; mem = replicate 96 none; len = 0; capacity = 96 }

pub empty-Holds : Holds darwin empty []
unfolding Buffer.layout_for_capacity
empty-Holds = record {
  rest = replicate 96 none;
  mem_eq = refl;
  len_eq = refl;
  len_le = omega arith;
  alloc_eq = refl;
  cap_lt = omega arith;
}

abbrev delivery : Received
delivery = record {
  header = received.header;
  bytes = (desc_area packed (map (delivered_item darwin) carried) ++ text) ++ replicate 8 0;
}

delivery-IsDelivery : IsDelivery darwin packed delivery (once_reply 3) (some 5) carried text
unfolding Buffer.to_ne_bytes
delivery-IsDelivery = record {
  fields = carried_bits;
  trailer = replicate 8 0;
  bytes_eq = refl;
  size_eq = refl;
  bits = refl;
  fit = record { remote = omega arith; local = omega arith; voucher = omega arith };
  complex = refl;
  reply_in = (refl, omega arith, refl);
  voucher_in = (refl, omega arith, inr refl);
  all = (omega arith, ((omega arith, omega arith, inr (omega arith)), (omega arith, tt)));
}

recv_example :
    Returns
      (λ q.
        IsDone
          (λ b.
            IsReceived darwin packed b (once_reply 3) (some 5) carried text
            × (b.header ≡ delivery.header))
          q.0
        × (q.1 ≡ no_counts))
      (Transfer.recv darwin (delivering delivery) (from_raw_name 6) empty no_counts)
unfolding Buffer.to_ne_bytes
recv_example =
    recv-IsReceived darwin-IsDarwin (delivering delivery) empty-Holds (from_raw_name 6) no_counts
      delivery-IsDelivery (omega arith) (omega arith) refl

-- A message of 36 bytes.
abbrev long : Received
long = record { header = record zero_header { msgh_size = 36 }; bytes = replicate 12 0 }

recv_overflows_example :
    Transfer.recv darwin (delivering long) (from_raw_name 6) three no_counts ≡ undefined
recv_overflows_example =
    recv_overflows darwin-IsDarwin (delivering long) three-Holds (from_raw_name 6) no_counts refl
      (omega arith)

-- A message of 100 bytes, 76 of them behind its header, which fit a buffer for 96.
abbrev large : Received
large = record { header = record zero_header { msgh_size = 100 }; bytes = replicate 76 0 }

recv_refuses_example :
    (◌≢◌ {A = ℕ} 0 0
      → Transfer.recv darwin (delivering large) (from_raw_name 6) empty no_counts
        ≡ ok (failed 0, no_counts))
    × (◌≡◌ {A = ℕ} 0 0
        → 96 < 100
        → Transfer.recv darwin (delivering large) (from_raw_name 6) empty no_counts ≡ panic)
recv_refuses_example =
    recv_refuses darwin-IsDarwin (delivering large) empty-Holds (from_raw_name 6) no_counts refl
      (omega arith)
