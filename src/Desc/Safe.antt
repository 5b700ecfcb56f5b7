-- ===== src/Desc/Safe.antt =====
-- Descriptors that nobody vouches for: whatever their bytes are, reading the next one stays within
-- the bytes that were filled.
use mach_ports_rs.Prelude.{
  ℕ, ◌+◌, ◌-◌, ◌%◌, ◌≤◌, ◌≡◌, ◌⊎◌, ap, true, false, some, List, ◌++◌, map, length, length-map,
  length-drop, take, drop, take-append_left, drop-append_left, take-map, drop-map, ◌==◌, ltb, leb,
  ok, access, arith, try_into, sub_word-ok, IsDefined, safely, stopped, Safely-bind, Safely-assert,
  Safely-debug_assert, Safely-if, unwrap-IsDefined,
}
use mach_ports_rs.Abi.{Platform}
use mach_ports_rs.MsgBits
use mach_ports_rs.Buffer
use mach_ports_rs.Buffer.{Buffer, Header, Cell, bytes_of, slice_to, slice_from, descriptors_count}
use mach_ports_rs.Buffer.Holds.{bytes_of-some}
use mach_ports_rs.Desc.{Layout, body_size, size_for_desc_type, transmute, next_desc_impl}

-- The kernel has filled the buffer as far as `msgh_size` says, with bytes of any kind; it refuses to
-- send a complex message that is too short for a number of descriptors.
pub record IsFilled (p : Platform) (b : Buffer) : Type 0 where
  pub bytes : List ℕ
  pub rest : List Cell
  pub body_eq : Buffer.body p b ≡ ok (map some bytes ++ rest)
  pub size_eq : b.header.msgh_size ≡ p.header_size + length bytes
  pub counted : (MsgBits.complex p b.header.msgh_bits ≡ false) ⊎ (4 ≤ length bytes)

pub slice_to-eq : {A : Type 0} (n : ℕ) (xs ys : List A) → slice_to n xs ≡ ok ys → ys ≡ take n xs
slice_to-eq n xs ys e = ground arith

slice_from-eq : {A : Type 0} (n : ℕ) (xs ys : List A) → slice_from n xs ≡ ok ys → ys ≡ drop n xs
slice_from-eq n xs ys e = ground arith

-- Cells within the bytes are written.
pub filled_slice :
    (bytes : List ℕ) (rest : List Cell) (offset n : ℕ)
    → offset + n ≤ length bytes
    → bytes_of (take n (drop offset (map some bytes ++ rest))) ≡ some (take n (drop offset bytes))
filled_slice bytes rest offset n le =
    rw
      (
        drop-append_left offset (map {A = ℕ} {B = Cell} some bytes) rest
            (omega (arith, length-map {0, 0} {A = ℕ} {B = Cell} some bytes, le)),
        drop-map {A = ℕ} {B = Cell} some offset bytes,
        take-append_left n (map {A = ℕ} {B = Cell} some (drop offset bytes)) rest (
            omega (
              arith,
              length-map {0, 0} {A = ℕ} {B = Cell} some (drop offset bytes),
              length-drop offset bytes,
              le,
            )),
        take-map {A = ℕ} {B = Cell} some n (drop offset bytes),
      )
      (bytes_of-some (take n (drop offset bytes)))

pub slice_to-IsDefined : {A : Type 0} (n : ℕ) (xs : List A) → IsDefined (slice_to n xs)
slice_to-IsDefined n xs = Safely-if (leb n (length xs)) (safely tt) stopped

slice_from-IsDefined : {A : Type 0} (n : ℕ) (xs : List A) → IsDefined (slice_from n xs)
slice_from-IsDefined n xs = Safely-if (leb n (length xs)) (safely tt) stopped

module _ (p : Platform) (l : Layout) where
  size_for_desc_type-IsDefined : (type_ : ℕ) → IsDefined (size_for_desc_type p l type_)
  unfolding size_for_desc_type
  size_for_desc_type-IsDefined type_ = Safely-if (type_ == p.port_descriptor) (safely tt) (
      Safely-if (type_ == p.ool_descriptor) (safely tt) (
        Safely-if (type_ == p.ool_volatile_descriptor) (safely tt)
          (Safely-if (type_ == p.ool_ports_descriptor) (safely tt) stopped)))

  transmute-IsDefined : (type_ : ℕ) (bytes : List ℕ) → IsDefined (transmute p l type_ bytes)
  unfolding transmute
  transmute-IsDefined type_ bytes = Safely-if (type_ == p.port_descriptor) (safely tt) (
      Safely-if (type_ == p.ool_descriptor) (safely tt) (
        Safely-if (type_ == p.ool_volatile_descriptor) (safely tt)
          (Safely-if (type_ == p.ool_ports_descriptor) (safely tt) stopped)))

-- A slice of the filled bytes can be read.
slice-IsDefined :
    (bytes : List ℕ) (rest : List Cell) (offset : ℕ) (tail : List Cell) (n : ℕ) (cells : List Cell)
    → slice_from offset (map some bytes ++ rest) ≡ ok tail
    → slice_to n tail ≡ ok cells
    → offset + n ≤ length bytes
    → IsDefined (access (bytes_of cells))
slice-IsDefined bytes rest offset tail n cells te ce le =
    rw
      (
        slice_to-eq n tail cells ce,
        slice_from-eq offset (map some bytes ++ rest) tail te,
        filled_slice bytes rest offset n le,
      )
      (safely tt)

module _ (p : Platform) (l : Layout) {b : Buffer} (h : IsFilled p b) where
  size_read : (n : ℕ) → body_size p b n true ≡ ok (length h.bytes)
  unfolding body_size
  size_read n =
      rw (sub_word-ok p.profile 64 b.header.msgh_size p.header_size (omega (arith, h.size_eq)))
        (ap ok (omega (arith, h.size_eq)))

  pub next_desc_impl-IsDefined : (offset : ℕ) → IsDefined (next_desc_impl p l b offset true)
  unfolding next_desc_impl
  next_desc_impl-IsDefined offset =
      rw (h.body_eq, size_read (length (map some h.bytes ++ h.rest)))
        (Safely-assert (ltb offset size) (λ lt. Safely-debug_assert p.profile _ (
          Safely-assert (leb p.port_descriptor_size (size - offset)) (λ room.
            Safely-bind (slice_from-IsDefined offset cells) (λ tail te u.
              Safely-bind (slice_to-IsDefined p.port_descriptor_size tail) (λ tc tce u.
                Safely-assert ((p.header_size + offset) % p.port_descriptor_align == 0) (λ aligned.
                  Safely-bind
                    (slice-IsDefined h.bytes h.rest offset tail p.port_descriptor_size tc te tce
                      (within offset p.port_descriptor_size lt room))
                    (λ type_bytes tbe u.
                      Safely-bind (size_for_desc_type-IsDefined p l _) (λ desc_size dse u.
                        Safely-assert (leb desc_size (size - offset)) (λ more.
                          Safely-bind (slice_to-IsDefined desc_size tail) (λ dc dce u.
                            Safely-bind
                              (slice-IsDefined h.bytes h.rest offset tail desc_size dc te dce
                                (within offset desc_size lt more))
                              (λ desc_bytes dbe u.
                                Safely-bind (transmute-IsDefined p l _ desc_bytes) (λ desc de u.
                                  Safely-bind (unwrap-IsDefined (try_into 32 (offset + desc_size)))
                                    (λ next_offset ne nu. (safely tt)))))))))))))))
    where
      size : ℕ
      size = length h.bytes

      cells : List Cell
      cells = map some h.bytes ++ h.rest

      within :
          (offset n : ℕ)
          → ltb offset (length h.bytes) ≡ true
          → leb n (length h.bytes - offset) ≡ true
          → offset + n ≤ length h.bytes
      within offset n lt room = ground arith
