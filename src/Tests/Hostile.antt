-- ===== src/Tests/Hostile.antt =====
-- Reading and dropping unread, at messages of any bytes.
use mach_ports_rs.Prelude.{
  ◌≡◌, ℕ, inr, refl, true, none, some, List, [], ◌∷◌, ◌++◌, map, replicate, IsDefined, arith,
}
use mach_ports_rs.MsgBits.Fields.{fields, encode}
use mach_ports_rs.Buffer
use mach_ports_rs.Buffer.{Buffer}
use mach_ports_rs.Desc.References.{AreAligned, references}
use mach_ports_rs.Desc.Safe.{IsFilled}
use mach_ports_rs.Parser.{DescOrBodyParser, descriptor}
use mach_ports_rs.Parser.Incoming.{parse_message}
use mach_ports_rs.Parser.Roundtrip.{read_all}
use mach_ports_rs.Parser.Safe.{parse_message-IsDefined}
use mach_ports_rs.Parser.SafeDrop.{drop-IsDefined}
use mach_ports_rs.Parser.Discard
use mach_ports_rs.Parser.Rounds.{Ends, read_within, reading-Ends}
use mach_ports_rs.Tests.Layouts.{darwin, packed}
use mach_ports_rs.Tests.Setup.{counting}

-- 27 bytes that claim three descriptors: one of a port, and then bytes that are none.
abbrev claimed : List ℕ
claimed = (3 ∷ 0 ∷ 0 ∷ 0 ∷ 7 ∷ 0 ∷ 0 ∷ 0 ∷ 0 ∷ 0 ∷ 0 ∷ 0 ∷ 0 ∷ 0 ∷ 17 ∷ 0 ∷ []) ++ replicate 11 9

abbrev hostile : Buffer
hostile = record {
  header = record {
    msgh_bits = encode (fields true 17 0 0);
    msgh_size = 51;
    msgh_remote_port = 3;
    msgh_local_port = 0;
    msgh_voucher_port = 0;
    msgh_id = 1;
  };
  mem = map some claimed ++ replicate 25 none;
  len = 51;
  capacity = 51;
}

hostile-IsFilled : IsFilled darwin hostile
unfolding Buffer.body
hostile-IsFilled = record {
  bytes = claimed;
  rest = replicate 24 none;
  body_eq = refl;
  size_eq = refl;
  counted = inr (omega arith);
}

parse_message-IsDefined_example :
    IsDefined (parse_message darwin packed 3 hostile)
    × ((count offset : ℕ) → AreAligned (references darwin packed 4 4096 hostile count offset))
parse_message-IsDefined_example =
    parse_message-IsDefined darwin packed hostile-IsFilled 3 4 4096 refl refl

abbrev no_counts : ℕ → ℕ → ℕ
no_counts m r = 0

drop-IsDefined_example :
    IsDefined (Discard.drop darwin counting packed hostile no_counts)
    × ((count offset : ℕ) → AreAligned (references darwin packed 4 4096 hostile count offset))
drop-IsDefined_example =
    drop-IsDefined darwin counting packed hostile-IsFilled no_counts 4 4096 refl refl

abbrev at_first : DescOrBodyParser
at_first = descriptor (record { buffer = hostile; count = 3; offset = 4 })

reading-Ends_example :
    Ends 3 (read_within darwin packed 3 at_first)
    × (read_within darwin packed 3 at_first ≡ some (read_all darwin packed 3 at_first))
reading-Ends_example = reading-Ends darwin packed at_first (omega arith)
