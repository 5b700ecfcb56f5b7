-- ===== src/Tests/Storage.antt =====
-- The theorems on the header bits and on the buffer at concrete values.
use mach_ports_rs.Prelude.{
  ℕ, ◌≡◌, refl, inl, false, none, some, List, [], ◌∷◌, ◌++◌, map, replicate, undefined, Returns,
  arith,
}
use mach_ports_rs.MsgBits
use mach_ports_rs.MsgBits.Fields.{Fields, fields, Fit, encode, getters}
use mach_ports_rs.Buffer
use mach_ports_rs.Buffer.{Buffer, zero_header}
use mach_ports_rs.Buffer.Holds.{Holds}
use mach_ports_rs.Buffer.Growth.{IsReserved, reserve-IsReserved}
use mach_ports_rs.Buffer.Move.{IsExtended}
use mach_ports_rs.Buffer.Insert.{insert-IsExtended}
use mach_ports_rs.Buffer.Overflow.{append_overflows, insert_overflows}
use mach_ports_rs.Tests.Layouts.{darwin, darwin-IsDarwin, darwin-Served}

abbrev with_reply_bits : Fields
with_reply_bits = fields false 19 21 17

with_reply_bits-Fit : Fit with_reply_bits
with_reply_bits-Fit = record { remote = omega arith; local = omega arith; voucher = omega arith }

getters_example :
    (MsgBits.complex darwin (encode with_reply_bits) ≡ false)
    × (MsgBits.remote darwin (encode with_reply_bits) ≡ 19)
    × (MsgBits.local darwin (encode with_reply_bits) ≡ 21)
    × (MsgBits.voucher darwin (encode with_reply_bits) ≡ 17)
getters_example = getters darwin-IsDarwin with_reply_bits with_reply_bits-Fit

-- Three bytes in a buffer for eight.
abbrev pub three : Buffer
three = record {
  header = zero_header;
  mem = map some (1 ∷ 2 ∷ 3 ∷ []) ++ replicate 5 none;
  len = 3;
  capacity = 8;
}

pub three-Holds : Holds darwin three (1 ∷ 2 ∷ 3 ∷ [])
unfolding Buffer.layout_for_capacity
three-Holds = record {
  rest = replicate 5 none;
  mem_eq = refl;
  len_eq = refl;
  len_le = omega arith;
  alloc_eq = refl;
  cap_lt = omega arith;
}

-- More than the five bytes of room.
abbrev nine : List ℕ
nine = replicate 9 7

reserve_example :
    Returns (IsReserved darwin three (1 ∷ 2 ∷ 3 ∷ []) 10) (Buffer.reserve darwin three 10)
reserve_example =
    reserve-IsReserved darwin-IsDarwin darwin-Served 10 three-Holds (omega arith) (omega arith)

insert_example :
    Returns
      (IsExtended darwin three (1 ∷ 8 ∷ 9 ∷ 2 ∷ 3 ∷ []) 3)
      (Buffer.insert darwin three 1 (8 ∷ 9 ∷ []))
insert_example =
    insert-IsExtended darwin-IsDarwin darwin-Served (1 ∷ []) (2 ∷ 3 ∷ []) (8 ∷ 9 ∷ []) three-Holds
      (inl (omega arith)) (omega arith)

append_overflows_example : Buffer.append darwin three nine ≡ undefined
append_overflows_example =
    append_overflows darwin-IsDarwin nine three-Holds (omega arith) (omega arith) (omega arith)

insert_overflows_example : Buffer.insert darwin three 1 nine ≡ undefined
insert_overflows_example =
    insert_overflows darwin-IsDarwin 1 nine three-Holds (omega arith) (omega arith) (omega arith)
      (omega arith)
