-- ===== src/Buffer/Overflow.antt =====
-- Where `append` and `insert` write outside the allocation: `make_space` asks `reserve` for the
-- missing bytes only, and `reserve` counts them from the length and not from the capacity.
use mach_ports_rs.Prelude.{
  ℕ, ◌+◌, ◌-◌, ◌^◌, ◌≤◌, ◌<◌, ◌≡◌, refl, List, [], ◌∷◌, map, length, length-map, arith, undefined,
  ok, some, try_into-some, checked_add-some, sub_word-ok, add_word-ok, leb_iff, write_at_outside,
  ltb, Bool-cases, inl, inr, access, Option, none, length-read_at, read_at, write_at, ◌>>=◌, true,
  false,
}
use mach_ports_rs.Abi.{Platform, IsDarwin}
use mach_ports_rs.Buffer.{Cell, Buffer, reserve, make_space, append, insert, move_tail}
use mach_ports_rs.Buffer.Holds.{Holds, layout_bounds}

module _ (p : Platform) {b : Buffer} where
  -- `reserve` leaves the buffer as it is when the length with the bytes asked for is within the
  -- capacity.
  pub reserve_same :
      (additional : ℕ)
      → b.len + additional ≤ b.capacity
      → b.capacity < 2 ^ 32
      → reserve p b additional ≡ ok b
  unfolding reserve
  reserve_same additional le lt =
      rw (checked_add-some 32 b.len additional (omega arith)) (ground arith)

  pub make_space_same :
      (needed : ℕ)
      → b.len ≤ b.capacity
      → b.capacity < 2 ^ 32
      → b.len + (needed - (b.capacity - b.len)) ≤ b.capacity
      → make_space p b needed ≡ ok b
  unfolding make_space
  make_space_same needed le lt gap =
      rw
        (
          sub_word-ok p.profile 32 b.capacity b.len le,
          reserve_same (needed - (b.capacity - b.len)) gap lt,
        )
        (ground arith)

-- A write of cells that reach outside the memory is undefined.
pub access_outside :
    (mem : List Cell) (i : ℕ) (bs : List ℕ)
    → length mem < i + length bs
    → i ≤ length mem
    → access (write_at mem i (map some bs)) ≡ undefined
access_outside mem i [] h le = absurd (omega arith)
access_outside mem i (x ∷ bs) h le = rw (
    write_at_outside mem i (some x) (map some bs)
      (omega (arith, length-map {0, 0} {A = ℕ} {B = Cell} some bs)))

-- So is a copy to where its last byte is outside the memory.
copy_outside :
    (mem : List Cell) (src n dst : ℕ)
    → 0 < n
    → length mem < dst + n
    → (access (read_at mem src n) >>= λ cells. access (write_at mem dst cells)) ≡ undefined
copy_outside mem src n dst pos out = go (read_at mem src n) refl
  where
    go :
        (r : Option (List Cell))
        → read_at mem src n ≡ r
        → (access r >>= λ cells. access (write_at mem dst cells)) ≡ undefined
    go none e = refl
    go (some []) e = absurd (omega (arith, length-read_at mem src n e))
    go (some (c ∷ cells)) e =
        rw (write_at_outside mem dst c cells (omega (arith, length-read_at mem src n e)))

-- Appending to any buffer of the invariant writes outside its allocation when the bytes exceed the
-- room by more than the padding while the length with the missing bytes is within the capacity:
-- make_space asks reserve for the missing bytes only, and reserve counts them from the length.
pub append_overflows :
    {p : Platform} (d : IsDarwin p) {b : Buffer} {bs : List ℕ} (ys : List ℕ)
    → Holds p b bs
    → length ys < 2 ^ 32
    → b.capacity + 3 < b.len + length ys
    → b.len + (length ys - (b.capacity - b.len)) ≤ b.capacity
    → append p b ys ≡ undefined
unfolding append
append_overflows {p} d {b} ys h lt more gap = rw (
  try_into-some 32 (length ys) lt,
  make_space_same p {b = b} (length ys) h.len_le h.cap_lt gap,
  access_outside b.mem b.len ys (omega (arith, h.alloc_eq, layout_bounds d b.capacity))
      (omega (arith, h.alloc_eq, layout_bounds d b.capacity, h.len_le)),
)

-- Inserting into any buffer of the invariant writes outside its allocation when the bytes exceed
-- the room by more than the padding while the length with the bytes that insert asks reserve for is
-- within the capacity.
pub insert_overflows :
    {p : Platform} (d : IsDarwin p) {b : Buffer} {bs : List ℕ} (at : ℕ) (ys : List ℕ)
    → Holds p b bs
    → at ≤ b.len
    → length ys + at < 2 ^ 32
    → b.capacity + 3 < b.len + length ys
    → b.len + (length ys + at - (b.capacity - b.len)) ≤ b.capacity
    → insert p b at ys ≡ undefined
unfolding insert move_tail
insert_overflows {p} d {b} at ys h le lt more gap =
    rw
      (
        (leb_iff at b.len).1 le,
        try_into-some 32 (length ys) (omega arith),
        checked_add-some 32 (length ys) at lt,
        make_space_same p {b = b} (length ys + at) h.len_le h.cap_lt gap,
      )
      (elim (Bool-cases (ltb 0 (b.len - at))) [
        | inl some_left ↦
            rw (some_left, add_word-ok p.profile 32 at (length ys) (omega arith))
              (rw (
                copy_outside b.mem at (b.len - at) (at + length ys) (positive some_left)
                  (omega (arith, outside))))
        | inr none_left ↦ rw none_left (
            rw (
              access_outside b.mem at ys (omega (arith, outside, at_end none_left))
                (omega (arith, outside, at_end none_left))))
      ])
  where
    outside : (b.len ≤ length b.mem) × (length b.mem < b.len + length ys)
    outside = (
      omega (arith, h.alloc_eq, layout_bounds d b.capacity, h.len_le),
      omega (arith, h.alloc_eq, layout_bounds d b.capacity),
    )

    positive : ltb 0 (b.len - at) ≡ true → 0 < b.len - at
    positive e = ground arith

    at_end : ltb 0 (b.len - at) ≡ false → at ≡ b.len
    at_end e = ground arith
