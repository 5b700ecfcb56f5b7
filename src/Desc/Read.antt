-- ===== src/Desc/Read.antt =====
-- What `next_desc_impl` reads where a descriptor lies in the body.
use mach_ports_rs.Prelude.{
  ℕ, ◌+◌, ◌-◌, ◌%◌, ◌^◌, ◌<◌, ◌≤◌, ◌≡◌, Bool, true, some, List, ◌++◌, map, length, take, ltb_iff,
  leb_iff, ==_iff, ◌==◌, ok, debug_assert-ok, try_into-some, length-map, length-append, take-map,
  take-append_left, drop-append, take_all, arith, sym, ◌∙◌,
}
use mach_ports_rs.Abi.{Platform, IsDarwin}
use mach_ports_rs.Buffer.{Buffer, Cell, slice_to, slice_from, body}
use mach_ports_rs.Buffer.Holds.{bytes_of-some}
use mach_ports_rs.Desc.{
  PortDesc, OolDesc, Layout, PortFits, OolFits, IsLayout, TransmutedMsgDesc, port, ool,
  size_for_desc_type, transmute, body_size, next_desc_impl,
}

-- A descriptor that the builder writes.
pub data Item : Type 0 where
  port_item : PortDesc → Item
  ool_item : OolDesc → Item

abbrev pub transmuted : Item → TransmutedMsgDesc
transmuted (port_item d) = port d
transmuted (ool_item d) = ool d

abbrev pub item_bytes : Layout → Item → List ℕ
item_bytes l (port_item d) = l.port_bytes d
item_bytes l (ool_item d) = l.ool_bytes d

abbrev pub item_size : Item → ℕ
item_size (port_item d) = 12
item_size (ool_item d) = 16

abbrev pub item_type : Item → ℕ
item_type (port_item d) = d.type_
item_type (ool_item d) = d.type_

-- The fields fit, and the type is that of the structure.
abbrev pub ItemFits : Platform → Item → Type 0
ItemFits p (port_item d) = PortFits d × (d.type_ ≡ p.port_descriptor)
ItemFits p (ool_item d) = OolFits d × (d.type_ ≡ p.ool_descriptor)

module _ {p : Platform} (d : IsDarwin p) {l : Layout} (lay : IsLayout p l) where
  pub length-item_bytes : (i : Item) → length (item_bytes l i) ≡ item_size i
  length-item_bytes (port_item x) = omega (arith, lay.port_size x, d.port_descriptor_size)
  length-item_bytes (ool_item x) = omega (arith, lay.ool_size x, d.ool_descriptor_size)

  -- The type is read through a port descriptor, whichever the descriptor is.
  type_read :
      (i : Item)
      → ItemFits p i
      → (l.port_of (take p.port_descriptor_size (item_bytes l i))).type_ ≡ item_type i
  type_read (port_item x) f = rw (
    take_all (l.port_bytes x) p.port_descriptor_size (omega (arith, lay.port_size x)),
    lay.port_of-port_bytes x f.0,
  )
  type_read (ool_item x) f = lay.type_shared x f.0

  size_read : (i : Item) → ItemFits p i → size_for_desc_type p l (item_type i) ≡ ok (item_size i)
  unfolding size_for_desc_type
  size_read (port_item x) f = rw (f.1, d.port_descriptor_size, d.port_descriptor)
  size_read (ool_item x) f = rw (f.1, d.ool_descriptor_size, d.port_descriptor, d.ool_descriptor)

  desc_read :
      (i : Item) → ItemFits p i → transmute p l (item_type i) (item_bytes l i) ≡ ok (transmuted i)
  unfolding transmute
  desc_read (port_item x) f = rw (lay.port_of-port_bytes x f.0, f.1, d.port_descriptor)
  desc_read (ool_item x) f =
      rw (lay.ool_of-ool_bytes x f.0, f.1, d.port_descriptor, d.ool_descriptor)

  module _ (i : Item) (fits : ItemFits p i) (pre : List ℕ) (rest : List Cell) where
    -- The cells from the descriptor on, and all cells of the body.
    desc_cells : List Cell
    desc_cells = map some (item_bytes l i) ++ rest

    abbrev body_cells : List Cell
    body_cells = map some pre ++ (map some (item_bytes l i) ++ rest)

    length-pre : length (map {A = ℕ} {B = Cell} some pre) ≡ length pre
    length-pre = length-map {0, 0} {A = ℕ} {B = Cell} some pre

    length-desc : length (map {A = ℕ} {B = Cell} some (item_bytes l i)) ≡ item_size i
    length-desc = length-map {0, 0} {A = ℕ} {B = Cell} some (item_bytes l i) ∙ length-item_bytes i

    length-desc_cells : length desc_cells ≡ item_size i + length rest
    unfolding desc_cells
    length-desc_cells = omega (arith, length-append (map some (item_bytes l i)) rest, length-desc)

    front :
        (n : ℕ) → n ≤ item_size i → slice_to n desc_cells ≡ ok (map some (take n (item_bytes l i)))
    unfolding desc_cells
    front n le = rw (
      (leb_iff n (length desc_cells)).1 (omega (arith, length-desc_cells)),
      take-append_left n (map some (item_bytes l i)) rest (omega (arith, length-desc)),
      take-map {0, 0} {A = ℕ} {B = Cell} some n (item_bytes l i),
    )

    type_size : p.port_descriptor_size ≤ item_size i
    type_size = le i
      where
        le : (j : Item) → p.port_descriptor_size ≤ item_size j
        le (port_item x) = omega (arith, d.port_descriptor_size)
        le (ool_item x) = omega (arith, d.port_descriptor_size)

    tail : slice_from (length pre) body_cells ≡ ok desc_cells
    unfolding desc_cells
    tail = rw (
      (leb_iff (length pre) (length body_cells)).1 (
          omega
            (arith, length-append (map some pre) (map some (item_bytes l i) ++ rest), length-pre)),
      drop-append (map some pre) (map some (item_bytes l i) ++ rest) (length pre) (sym length-pre),
    )

    is_aligned :
        length pre % 4 ≡ 0 → ((p.header_size + length pre) % p.port_descriptor_align == 0) ≡ true
    is_aligned aligned =
        rw (d.header_size, d.port_descriptor_align)
          ((==_iff ((24 + length pre) % 4) 0).1 (omega arith))

    -- A descriptor that the builder can write, at a multiple of four in the body and within a size
    -- of the body below 2 ^ 32, is read back by next_desc_impl as it was written, and the offset
    -- moves behind it.
    pub next_desc_impl-item :
        (b : Buffer) (size : ℕ) (received : Bool)
        → body p b ≡ ok body_cells
        → body_size p b (length body_cells) received ≡ ok size
        → length pre + item_size i ≤ size
        → size ≤ length body_cells
        → size < 2 ^ 32
        → length pre % 4 ≡ 0
        → next_desc_impl p l b (length pre) received ≡ ok (transmuted i, length pre + item_size i)
    unfolding next_desc_impl
    next_desc_impl-item b size received body_eq size_eq le le' small aligned = rw (
      body_eq,
      size_eq,
      (ltb_iff (length pre) size).1 (omega (arith, le, type_size, d.port_descriptor_size)),
      debug_assert-ok p.profile ((leb_iff size (length body_cells)).1 le'),
      (leb_iff p.port_descriptor_size (size - length pre)).1 (omega (arith, le, type_size)),
      tail,
      front p.port_descriptor_size type_size,
      is_aligned aligned,
      bytes_of-some (take p.port_descriptor_size (item_bytes l i)),
      type_read i fits,
      size_read i fits,
      (leb_iff (item_size i) (size - length pre)).1 (omega (arith, le)),
      front (item_size i) (omega arith),
      take_all (item_bytes l i) (item_size i) (omega (arith, length-item_bytes i)),
      bytes_of-some (item_bytes l i),
      desc_read i fits,
      try_into-some 32 (length pre + item_size i) (omega arith),
    )
