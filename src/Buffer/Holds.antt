-- ===== src/Buffer/Holds.antt =====
-- The invariant of `Buffer`: which bytes a buffer holds, and that they can be read.
use mathlib.Core.Option
use mach_ports_rs.Prelude.{
  ℕ, ◌+◌, ◌-◌, ◌^◌, ◌≤◌, ◌<◌, ◌≡◌, refl, ap, true, none, some, List, [], ◌∷◌, ◌++◌, map, length,
  length-map, length-replicate, replicate, read_at-append, arith, ok, Returns, returns,
  try_into-some, ==_iff,
}
use mach_ports_rs.Abi.{Platform, IsDarwin}
use mach_ports_rs.Buffer.{
  Cell, Buffer, Header, zero_header, bytes_of, to_ne_bytes, from_ne_bytes, layout_for_capacity,
  with_capacity, has_layout, body, as_slice,
}

-- The buffer holds the bytes `bs`: they are the first `len` cells, `len` is within the capacity,
-- and the allocation is the one that the capacity asks for.
pub record Holds (p : Platform) (b : Buffer) (bs : List ℕ) : Type 0 where
  pub rest : List Cell
  pub mem_eq : b.mem ≡ map some bs ++ rest
  pub len_eq : b.len ≡ length bs
  pub len_le : b.len ≤ b.capacity
  pub alloc_eq : length b.mem + p.header_size ≡ layout_for_capacity p b.capacity
  pub cap_lt : b.capacity < 2 ^ 32

-- The header is no part of it.
pub with_header-Holds :
    {p : Platform} {b : Buffer} {bs : List ℕ} (header : Header)
    → Holds p b bs
    → Holds p (record b { header = header }) bs
with_header-Holds header h = record {
  rest = h.rest;
  mem_eq = h.mem_eq;
  len_eq = h.len_eq;
  len_le = h.len_le;
  alloc_eq = h.alloc_eq;
  cap_lt = h.cap_lt;
}

pub bytes_of-some : (bs : List ℕ) → bytes_of (map some bs) ≡ some bs
bytes_of-some [] = refl
bytes_of-some (x ∷ bs) = ap (Option.map (λ r. x ∷ r)) (bytes_of-some bs)

-- The allocation covers the header and the capacity, with less than four bytes of padding.
pub layout_bounds :
    {p : Platform} (d : IsDarwin p) (capacity : ℕ)
    → (p.header_size + capacity ≤ layout_for_capacity p capacity)
      × (layout_for_capacity p capacity < p.header_size + capacity + 4)
unfolding layout_for_capacity
layout_bounds d capacity = rw (d.header_size, d.header_align) (omega arith, omega arith)

module _ {p : Platform} {b : Buffer} {bs : List ℕ} (h : Holds p b bs) where
  pub body-ok : body p b ≡ ok (map some bs)
  unfolding body
  body-ok = rw (
    h.mem_eq,
    read_at-append [] (map some bs) h.rest 0 b.len (omega arith)
        (omega (arith, length-map {0, 0} {A = ℕ} {B = Cell} some bs, h.len_eq)),
  )

  pub as_slice-ok : as_slice p b ≡ ok (b.header, map some bs)
  unfolding as_slice
  as_slice-ok = rw body-ok

-- `from_ne_bytes` undoes `to_ne_bytes`.
pub from_ne_bytes-to_ne_bytes : (n : ℕ) → n < 2 ^ 32 → from_ne_bytes (to_ne_bytes n) ≡ n
unfolding from_ne_bytes to_ne_bytes
from_ne_bytes-to_ne_bytes n h = omega arith

-- A new buffer of a capacity below 2 ^ 32 that the allocator serves holds no bytes, has the
-- capacity asked for and a zeroed header, and satisfies the invariant.
pub with_capacity-Holds :
    {p : Platform} (d : IsDarwin p) (n : ℕ)
    → n < 2 ^ 32
    → p.allocates (layout_for_capacity p n) ≡ true
    → Returns (λ b. Holds p b [] × (b.capacity ≡ n) × (b.header ≡ zero_header)) (with_capacity p n)
unfolding with_capacity
with_capacity-Holds {p} d n h a =
    rw (try_into-some 32 n h, a)
      (returns (
        record {
          rest = replicate (layout_for_capacity p n - p.header_size) none;
          mem_eq = refl;
          len_eq = refl;
          len_le = omega arith;
          alloc_eq = omega (
            arith,
            layout_bounds d n,
            length-replicate {0} {A = Cell} (layout_for_capacity p n - p.header_size) none,
          );
          cap_lt = h;
        },
        refl,
        refl,
      ))

-- The layout of the capacity is that of the allocation.
pub layout_kept : {p : Platform} {b : Buffer} {bs : List ℕ} → Holds p b bs → has_layout p b ≡ true
unfolding has_layout
layout_kept {p} {b} h =
    (==_iff (length b.mem + p.header_size) (layout_for_capacity p b.capacity)).1 h.alloc_eq
