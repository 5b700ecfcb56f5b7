-- ===== src/Buffer.antt =====
-- msg/buffer.rs: the growing buffer that a message is built in or received into.
--
-- A buffer is the fields of the header and the cells of its allocation behind the header; a cell
-- that was never written is `none`. Sizes are `u32` words, `usize` has 64 bits.
pub mod Holds
pub mod Growth
pub mod Move
pub mod Insert
pub mod Overflow
pub mod Drop
use mathlib.Core.Option
use mach_ports_rs.Prelude.{
  ℕ, ◌+◌, ◌-◌, ◌*◌, ◌/◌, ◌%◌, ◌^◌, max, Bool, Option, none, some, List, [], ◌∷◌, ◌++◌, map, length,
  take, drop, replicate, read_at, write_at, ltb, leb, if◌then◌else◌, Outcome, ok, panic, ◌>>=◌,
  ◌>>◌, assert, require, ◌==◌, unwrap, access, add_word, sub_word, try_into, checked_add,
}
use mach_ports_rs.Abi.{Platform}
use mach_ports_rs.MsgBits
use mach_ports_rs.MsgBits.{MachMsgBits}

-- `mach_msg_header_t`
pub record Header : Type 0 where
  pub msgh_bits : ℕ
  pub msgh_size : ℕ
  pub msgh_remote_port : ℕ
  pub msgh_local_port : ℕ
  pub msgh_voucher_port : ℕ
  pub msgh_id : ℕ

-- A byte of memory.
abbrev pub Cell : Type 0
Cell = Option ℕ

pub record Buffer : Type 0 where
  pub header : Header
  pub mem : List Cell
  pub len : ℕ
  pub capacity : ℕ

abbrev pub zero_header : Header
zero_header = record {
  msgh_bits = 0;
  msgh_size = 0;
  msgh_remote_port = 0;
  msgh_local_port = 0;
  msgh_voucher_port = 0;
  msgh_id = 0;
}

-- The bytes of cells that are all written.
abbrev pub bytes_of : List Cell → Option (List ℕ)
bytes_of [] = some []
bytes_of (none ∷ cs) = none
bytes_of (some x ∷ cs) = Option.map (λ xs. x ∷ xs) (bytes_of cs)

-- `&slice[..n]` and `&slice[n..]`
module _ {A : Type 0} where
  abbrev pub slice_to : ℕ → List A → Outcome (List A)
  slice_to n xs = if leb n (length xs) then ok (take n xs) else panic

  abbrev pub slice_from : ℕ → List A → Outcome (List A)
  slice_from n xs = if leb n (length xs) then ok (drop n xs) else panic

-- `u32::to_ne_bytes` and `u32::from_ne_bytes`, on a little-endian machine.
unfoldable pub to_ne_bytes : ℕ → List ℕ
to_ne_bytes n = n % 256 ∷ n / 256 % 256 ∷ n / 65536 % 256 ∷ n / 2 ^ 24 % 256 ∷ []

unfoldable pub from_ne_bytes : List ℕ → ℕ
from_ne_bytes [] = 0
from_ne_bytes (x ∷ xs) = x + 256 * from_ne_bytes xs

module _ (p : Platform) where
  -- The size of `Layout::new::<mach_msg_header_t>()` extended by the array and padded.
  unfoldable pub layout_for_capacity : ℕ → ℕ
  layout_for_capacity capacity =
      (p.header_size + capacity + p.header_align - 1) / p.header_align * p.header_align

  -- `realloc` and `dealloc` have to be given the layout that the allocation has.
  unfoldable pub has_layout : Buffer → Bool
  has_layout b = length b.mem + p.header_size == layout_for_capacity b.capacity

  unfoldable pub with_capacity : ℕ → Outcome Buffer
  with_capacity n = do
    capacity ← unwrap (try_into 32 n)
    assert (p.allocates (layout_for_capacity capacity))
    ok (record {
      header = zero_header;
      mem = replicate (layout_for_capacity capacity - p.header_size) none;
      len = 0;
      capacity = capacity;
    })

  -- The slice of the body, which need not be read: its cells.
  unfoldable pub body : Buffer → Outcome (List Cell)
  body b = access (read_at b.mem 0 b.len)

  unfoldable pub header_bits : Buffer → Outcome MachMsgBits
  header_bits b = MsgBits.from_bits p b.header.msgh_bits

  unfoldable pub descriptors_count : Buffer → Outcome ℕ
  descriptors_count b = do
    bits ← header_bits b
    if MsgBits.complex p bits
        then (do
          cells ← body b
          size ← slice_to 4 cells
          bytes ← access (bytes_of size)
          ok (from_ne_bytes bytes))
        else ok 0

  -- The header and the body, as they lie in memory one behind the other.
  unfoldable pub as_slice : Buffer → Outcome (Header × List Cell)
  as_slice b = do cells ← body b; ok (b.header, cells)

  unfoldable pub reserve : Buffer → ℕ → Outcome Buffer
  reserve b additional = do
    requested_capacity ← unwrap (checked_add 32 b.len additional)
    if ltb b.capacity requested_capacity
        then (do
          new_capacity ← unwrap (checked_add 32 (max (b.capacity / 2) additional) b.capacity)
          require (has_layout b)
          assert (p.allocates (layout_for_capacity new_capacity))
          ok (record b {
            mem =
                b.mem
                ++ replicate (layout_for_capacity new_capacity - layout_for_capacity b.capacity)
                    none;
            capacity = new_capacity;
          }))
        else ok b

  -- `if space_left < needed { self.reserve(needed - space_left) }`
  unfoldable pub make_space : Buffer → ℕ → Outcome Buffer
  make_space b needed = do
    space_left ← sub_word p.profile 32 b.capacity b.len
    if ltb space_left needed then reserve b (needed - space_left) else ok b

  unfoldable pub append : Buffer → List ℕ → Outcome Buffer
  append b bytes = do
    appended_len ← unwrap (try_into 32 (length bytes))
    grown ← make_space b appended_len
    mem ← access (write_at grown.mem grown.len (map some bytes))
    len ← add_word p.profile 32 grown.len appended_len
    ok (record grown { mem = mem; len = len })

  -- `ptr::copy` of the bytes from `at` on, to where the inserted ones end.
  unfoldable pub move_tail : List Cell → (len at inserted_len : ℕ) → Outcome (List Cell)
  move_tail mem len at inserted_len =
      if ltb 0 (len - at)
      then (do
        moved_data_off ← add_word p.profile 32 at inserted_len
        moved ← access (read_at mem at (len - at))
        access (write_at mem moved_data_off moved))
      else ok mem

  unfoldable pub insert : Buffer → ℕ → List ℕ → Outcome Buffer
  insert b at bytes = do
    assert (leb at b.len)
    inserted_len ← unwrap (try_into 32 (length bytes))
    final_len ← unwrap (checked_add 32 inserted_len at)
    grown ← make_space b final_len
    moved ← move_tail grown.mem grown.len at inserted_len
    mem ← access (write_at moved at (map some bytes))
    len ← add_word p.profile 32 grown.len inserted_len
    ok (record grown { mem = mem; len = len })

  unfoldable pub set_len : Buffer → ℕ → Outcome Buffer
  set_len b new_len = do assert (leb new_len b.capacity); ok (record b { len = new_len })
