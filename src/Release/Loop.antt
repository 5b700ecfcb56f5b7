-- ===== src/Release/Loop.antt =====
-- The loop over the descriptors of a message that is dropped.
use mathlib.Core.Path.{fun_ext}
use mach_ports_rs.Prelude.{
  ℕ, suc, ◌+◌, ◌%◌, ◌^◌, ◌<◌, ◌≡◌, refl, false, some, List, [], ◌∷◌, ◌++◌, map, append_assoc,
  map-append, length, length-append, length-map, arith, ok,
}
use mach_ports_rs.Abi.{Platform, IsDarwin}
use mach_ports_rs.MsgBits.Fields.{Fields}
use mach_ports_rs.Kernel.{Kernel}
use mach_ports_rs.Buffer
use mach_ports_rs.Buffer.{Buffer, Cell, Cell, Header, body, descriptors_count, to_ne_bytes}
use mach_ports_rs.Buffer.Holds.{body-ok, bytes_of-some, from_ne_bytes-to_ne_bytes}
use mach_ports_rs.Desc.{Layout, IsLayout, body_size}
use mach_ports_rs.Desc.Read.{Item, item_bytes, item_size, length-item_bytes, next_desc_impl-item}
use mach_ports_rs.Builder.Message.{
  items_bytes, Carries, bits_pass, complex_read, count_cells, item_aligned,
}
use mach_ports_rs.Release.{drop_loop}
use mach_ports_rs.Release.Contents.{
  Content, item_of, ContentFits, AllFit, give_all_back, item_of-ItemFits, drop_desc-item_of,
}

-- The count that stands in the buffer is that of the descriptors.
pub descriptors_count-Carries :
    {p : Platform} (d : IsDarwin p) {l : Layout} {b : Buffer} {f : Fields} {inline : List ℕ}
    (descs : List Item)
    → length descs < 2 ^ 32
    → Carries p l b f descs inline
    → descriptors_count p b ≡ ok (length descs)
unfolding descriptors_count Buffer.header_bits
descriptors_count-Carries d [] few h = rw (bits_pass d h, complex_read d h)
descriptors_count-Carries d {l} {inline} (j ∷ is) few h = rw (
  bits_pass d h,
  complex_read d h,
  body-ok h.holds,
  count_cells l (j ∷ is) inline refl,
  bytes_of-some (to_ne_bytes (length (j ∷ is))),
  from_ne_bytes-to_ne_bytes (length (j ∷ is)) few,
)

module _ {p : Platform} (d : IsDarwin p) {l : Layout} (lay : IsLayout p l) {S : Type 0}
    (k : Kernel S) (b : Buffer) where
  next_length :
      (pre : List ℕ) (i : Item) → length (pre ++ item_bytes l i) ≡ length pre + item_size i
  next_length pre i = omega (arith, length-append pre (item_bytes l i), length-item_bytes d lay i)

  -- One round of the loop, when the rest of it gives back what the other descriptors own.
  drop_loop_step :
      (pre : List ℕ) (c : Content) (cs : List Content) (rest : List ℕ)
      → body p b ≡ ok (map some (pre ++ (item_bytes l (item_of p c) ++ rest)))
      → length (pre ++ (item_bytes l (item_of p c) ++ rest)) < 2 ^ 32
      → length pre % 4 ≡ 0
      → ContentFits c
      → drop_loop p k l b (length cs) (length pre + item_size (item_of p c)) ≡ give_all_back p k cs
      → drop_loop p k l b (suc (length cs)) (length pre) ≡ give_all_back p k (c ∷ cs)
  unfolding drop_loop
  drop_loop_step pre c cs rest body_eq small aligned fits others = fun_ext λ s. rw (
    next_desc_impl-item d lay (item_of p c) (item_of-ItemFits d c fits) pre (map some rest) b
        (length cells) false body_eq' (unfold body_size in refl) (omega (arith, sizes))
        (omega arith) (omega (arith, small, sizes, whole_size)) aligned,
    drop_desc-item_of d k c fits,
    others,
  )
    where
      bytes : List ℕ
      bytes = item_bytes l (item_of p c)

      cells : List Cell
      cells = map some pre ++ (map some bytes ++ map some rest)

      body_eq' : body p b ≡ ok cells
      body_eq' =
          rw
            (
              ← map-append {A = ℕ} {B = Cell} some bytes rest,
              ← map-append {A = ℕ} {B = Cell} some pre (bytes ++ rest),
            )
            body_eq

      sizes : length cells ≡ length pre + item_size (item_of p c) + length rest
      sizes = omega (
        arith,
        length-append (map {A = ℕ} {B = Cell} some pre) (map some bytes ++ map some rest),
        length-append (map {A = ℕ} {B = Cell} some bytes) (map some rest),
        length-map {0, 0} {A = ℕ} {B = Cell} some pre,
        length-map {0, 0} {A = ℕ} {B = Cell} some bytes,
        length-map {0, 0} {A = ℕ} {B = Cell} some rest,
        length-item_bytes d lay (item_of p c),
      )

      whole_size :
          length (pre ++ (bytes ++ rest)) ≡ length pre + item_size (item_of p c) + length rest
      whole_size = omega (
        arith,
        length-append pre (bytes ++ rest),
        length-append bytes rest,
        length-item_bytes d lay (item_of p c),
      )

  pub drop_loop-give_all_back :
      (pre : List ℕ) (cs : List Content) (inline : List ℕ)
      → body p b ≡ ok (map some (pre ++ (items_bytes l (map (item_of p) cs) ++ inline)))
      → length (pre ++ (items_bytes l (map (item_of p) cs) ++ inline)) < 2 ^ 32
      → length pre % 4 ≡ 0
      → AllFit cs
      → drop_loop p k l b (length cs) (length pre) ≡ give_all_back p k cs
  unfolding drop_loop
  drop_loop-give_all_back pre [] inline body_eq small aligned fits = refl
  drop_loop-give_all_back pre (c ∷ cs) inline body_eq small aligned fits =
      drop_loop_step pre c cs rest body_eq' (omega (arith, same, small)) aligned fits.0 (
        rw (← next_length pre (item_of p c)) (
          drop_loop-give_all_back (pre ++ item_bytes l (item_of p c)) cs inline
            (rw append_assoc body_eq') (rw append_assoc (omega (arith, same, small)))
            (omega (arith, next_length pre (item_of p c), item_aligned (item_of p c))) fits.1))
    where
      rest : List ℕ
      rest = items_bytes l (map (item_of p) cs) ++ inline

      body_eq' : body p b ≡ ok (map some (pre ++ (item_bytes l (item_of p c) ++ rest)))
      body_eq' =
          rw
            (← append_assoc (item_bytes l (item_of p c)) (items_bytes l (map (item_of p) cs))
              inline)
            body_eq

      same :
          length (pre ++ (items_bytes l (map (item_of p) (c ∷ cs)) ++ inline))
          ≡ length (pre ++ (item_bytes l (item_of p c) ++ rest))
      same = rw append_assoc
