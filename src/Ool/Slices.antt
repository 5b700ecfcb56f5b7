-- ===== src/Ool/Slices.antt =====
-- The slices of `OolVec` and `OolBuf` of msg/ool.rs: changing them in place, and `PartialEq` and `Hash`,
-- which compare and hash them.
use mach_ports_rs.Prelude.{
  ℕ, ◌≡◌, refl, sym, ap, ◌∙◌, ◌↔◌, Bool, true, false, ◌&&◌, some, List, [], ◌∷◌, ◌++◌, map, length,
  length-map, length-append, write_at, write_at-append, Returns, returns, ◌==◌, ==_iff, Outcome, ok,
  ◌>>=◌, access, arith,
}
use mach_ports_rs.Buffer.{Cell, bytes_of}
use mach_ports_rs.Buffer.Holds.{bytes_of-some}
use mach_ports_rs.Ool.{OolVec, as_slice, as_slice_mut}
use mach_ports_rs.Ool.Owned.{OolBuf, contents}
use mach_ports_rs.Ool.Holds.{VecHolds, slice_read}

-- `OolBuf::as_slice_mut`: what is done with the mutable slice is a function on its cells.
unfoldable pub contents_mut : OolBuf → (List Cell → List Cell) → Outcome OolBuf
contents_mut b change = do
  cells ← contents b
  mem ← access (write_at b.mem 0 (change cells))
  ok (record b { mem = mem })

-- `<[u8]>::eq`
abbrev pub same_bytes : List ℕ → List ℕ → Bool
same_bytes [] [] = true
same_bytes [] (y ∷ ys) = false
same_bytes (x ∷ xs) [] = false
same_bytes (x ∷ xs) (y ∷ ys) = x == y && same_bytes xs ys

-- The bytes of a slice that is read.
abbrev pub read_bytes : Outcome (List Cell) → Outcome (List ℕ)
read_bytes slice = do cells ← slice; access (bytes_of cells)

-- `PartialEq for OolVec`
unfoldable pub eq : OolVec → OolVec → Outcome Bool
eq v w = do bs ← read_bytes (as_slice v); cs ← read_bytes (as_slice w); ok (same_bytes bs cs)

-- `Hash for OolVec`, with the hash of a slice.
unfoldable pub hash : {H : Type 0} → (List ℕ → H) → OolVec → Outcome H
hash slice_hash v = do bs ← read_bytes (as_slice v); ok (slice_hash bs)

-- `PartialEq for OolBuf`
unfoldable pub buf_eq : OolBuf → OolBuf → Outcome Bool
buf_eq a b = do bs ← read_bytes (contents a); cs ← read_bytes (contents b); ok (same_bytes bs cs)

-- `Hash for OolBuf`
unfoldable pub buf_hash : {H : Type 0} → (List ℕ → H) → OolBuf → Outcome H
buf_hash slice_hash b = do bs ← read_bytes (contents b); ok (slice_hash bs)

same_bytes_iff : (bs cs : List ℕ) → (same_bytes bs cs ≡ true) ↔ (bs ≡ cs)
same_bytes_iff [] [] = ((λ e. refl), λ e. refl)
same_bytes_iff [] (y ∷ ys) = ground arith
same_bytes_iff (x ∷ xs) [] = ground arith
same_bytes_iff (x ∷ xs) (y ∷ ys) = ground (arith, ==_iff x y, same_bytes_iff xs ys)

module _ {v : OolVec} {bs : List ℕ} (h : VecHolds v bs) where
  bytes_read : read_bytes (as_slice v) ≡ ok bs
  bytes_read = rw (slice_read h, bytes_of-some bs)

  -- A change in place of the bytes that keeps their number.
  pub as_slice_mut-VecHolds :
      (change : List Cell → List Cell) (cs : List ℕ)
      → change (map some bs) ≡ map some cs
      → length cs ≡ length bs
      → Returns (λ v'. VecHolds v' cs × (v'.buf ≡ v.buf)) (as_slice_mut v change)
  unfolding as_slice_mut
  as_slice_mut-VecHolds change cs e same =
      rw (slice_read h, e, overwritten)
        (returns (
          record {
            rest = h.rest;
            mem_eq = refl;
            len_eq = omega (arith, h.len_eq, same);
            mem_size = omega (
              arith,
              h.mem_size,
              ap length h.mem_eq,
              length-append (map {A = ℕ} {B = Cell} some bs) h.rest,
              length-append (map {A = ℕ} {B = Cell} some cs) h.rest,
              length-map {0, 0} {A = ℕ} {B = Cell} some bs,
              length-map {0, 0} {A = ℕ} {B = Cell} some cs,
              same,
            );
            cap_lt = h.cap_lt;
          },
          refl,
        ))
    where
      overwritten : write_at v.mem 0 (map some cs) ≡ some (map some cs ++ h.rest)
      overwritten =
          ap (λ z. write_at z 0 (map some cs)) h.mem_eq
          ∙ write_at-append [] (map some bs) (map some cs) h.rest 0 refl (
              omega (
                arith,
                length-map {0, 0} {A = ℕ} {B = Cell} some bs,
                length-map {0, 0} {A = ℕ} {B = Cell} some cs,
                same,
              ))

module _ {v w : OolVec} {bs cs : List ℕ} (hv : VecHolds v bs) (hw : VecHolds w cs) where
  eq-same_bytes : eq v w ≡ ok (same_bytes bs cs)
  unfolding eq
  eq-same_bytes = rw (bytes_read hv, bytes_read hw)

  -- Eq on two vectors that hold bytes returns true exactly if the bytes are the same, whatever the
  -- pages and the capacities are, and vectors for which it returns true have the same hash with any
  -- hash of slices.
  pub eq-hash :
      {H : Type 0} (slice_hash : List ℕ → H)
      → ((eq v w ≡ ok true) ↔ (bs ≡ cs))
        × (eq v w ≡ ok true → hash slice_hash v ≡ hash slice_hash w)
  unfolding hash
  eq-hash slice_hash = (
    (
      (λ e. (same_bytes_iff bs cs).0 (was_true (sym eq-same_bytes ∙ e))),
      λ e. eq-same_bytes ∙ ap ok ((same_bytes_iff bs cs).1 e),
    ),
    λ e.
        rw (
          bytes_read hv,
          bytes_read hw,
          (same_bytes_iff bs cs).0 (was_true (sym eq-same_bytes ∙ e)),
        ),
  )
    where
      was_true : {b : Bool} → ok b ≡ ok true → b ≡ true
      was_true e = ground arith
