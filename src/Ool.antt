-- ===== src/Ool.antt =====
-- `OolVec` of msg/ool.rs: a vector of bytes in pages of its own, which never grows.
--
-- The memory of the pages is a list of cells behind the `VmBuf` that names them.
pub mod Holds
pub mod Extend
pub mod Resize
pub mod Owned
pub mod Convert
pub mod Slices
pub mod Bulk
use mach_ports_rs.Prelude.{
  ℕ, ◌+◌, ◌-◌, Bool, Option, none, some, List, [], ◌∷◌, map, length, replicate, read_at, write_at,
  ltb, leb, ◌==◌, if◌then◌else◌, Outcome, ok, panic, ◌>>=◌, ◌>>◌, assert, access, add_word,
  sub_word,
}
use mach_ports_rs.Abi.{Platform}
use mach_ports_rs.Vm
use mach_ports_rs.Vm.{VmBuf}
use mach_ports_rs.Buffer.{Cell}

pub record NotEnoughCapacity : Type 0 where
  pub required_capacity : ℕ
  pub available_capacity : ℕ

-- `Result<_, NotEnoughCapacity>`
pub data Attempt (A : Type 0) : Type 0 where
  success : A → Attempt A
  not_enough : NotEnoughCapacity → Attempt A

pub record OolVec : Type 0 where
  pub buf : VmBuf
  pub mem : List Cell
  pub len : ℕ

abbrev pub capacity : OolVec → ℕ
capacity v = v.buf.capacity

-- The memory of the region comes with it.
abbrev pub from_raw_parts : (ptr : ℕ) (mem : List Cell) (length capacity : ℕ) → OolVec
from_raw_parts ptr mem length capacity = record {
  buf = Vm.from_raw_parts ptr capacity;
  mem = mem;
  len = length;
}

abbrev pub is_empty : OolVec → Bool
is_empty v = v.len == 0

-- `Result::unwrap`
abbrev pub unwrap_attempt : {A : Type 0} → Attempt A → Outcome A
unwrap_attempt (success a) = ok a
unwrap_attempt (not_enough e) = panic

-- `slice::split_last`, the last element only.
abbrev pub last : List Cell → Option Cell
last [] = none
last (c ∷ []) = some c
last (c ∷ c' ∷ cs) = last (c' ∷ cs)

unfoldable pub as_slice : OolVec → Outcome (List Cell)
as_slice v = access (read_at v.mem 0 v.len)

-- What is done with the mutable slice is a function on its cells.
unfoldable pub as_slice_mut : OolVec → (List Cell → List Cell) → Outcome OolVec
as_slice_mut v change = do
  cells ← as_slice v
  mem ← access (write_at v.mem 0 (change cells))
  ok (record v { mem = mem })

unfoldable pub set_len : OolVec → ℕ → Outcome OolVec
set_len v new_len = do assert (ltb new_len (capacity v)); ok (record v { len = new_len })

module _ (p : Platform) where
  unfoldable pub try_extend_from_slice : OolVec → List ℕ → Outcome (Attempt OolVec)
  try_extend_from_slice v slice = do
    available_capacity ← sub_word p.profile 64 (capacity v) v.len
    if leb (length slice) available_capacity
        then (do
          mem ← access (write_at v.mem v.len (map some slice))
          len ← add_word p.profile 64 v.len (length slice)
          ok (success (record v { mem = mem; len = len })))
        else ok (
            not_enough (record {
              required_capacity = length slice;
              available_capacity = available_capacity;
            }))

  unfoldable pub try_push : OolVec → ℕ → Outcome (Attempt OolVec)
  try_push v value = try_extend_from_slice v (value ∷ [])

  unfoldable pub extend_from_slice : OolVec → List ℕ → Outcome OolVec
  extend_from_slice v slice = do attempt ← try_extend_from_slice v slice; unwrap_attempt attempt

  unfoldable pub push : OolVec → ℕ → Outcome OolVec
  push v value = do attempt ← try_push v value; unwrap_attempt attempt

  -- `tail.fill(value)` where the vector becomes longer.
  unfoldable pub fill_tail : OolVec → (new_len value : ℕ) → Outcome (List Cell)
  fill_tail v new_len value =
      if ltb v.len new_len
      then access (write_at v.mem v.len (map some (replicate (new_len - v.len) value)))
      else ok v.mem

  unfoldable pub resize : OolVec → (new_len value : ℕ) → Outcome (Attempt OolVec)
  resize v new_len value =
      if leb new_len (capacity v)
      then (do
        mem ← fill_tail v new_len value
        resized ← set_len (record v { mem = mem }) new_len
        ok (success resized))
      else ok (not_enough (record { required_capacity = new_len; available_capacity = capacity v }))

  unfoldable pub popped : OolVec → Option Cell → Outcome (Option ℕ × OolVec)
  popped v none = ok (none, v)
  popped v (some cell) = do
    value ← access cell
    len ← sub_word p.profile 64 v.len 1
    ok (some value, record v { len = len })

  unfoldable pub pop : OolVec → Outcome (Option ℕ × OolVec)
  pop v = do cells ← as_slice v; popped v (last cells)

  -- `Extend::extend`
  unfoldable pub extend : OolVec → List ℕ → Outcome OolVec
  extend v [] = ok v
  extend v (x ∷ xs) = do pushed ← push v x; extend pushed xs
