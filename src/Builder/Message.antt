-- ===== src/Builder/Message.antt =====
-- The message that a builder holds, as its descriptors and its inline data.
use mach_ports_rs.Prelude.{
  ℕ, suc, ◌+◌, ◌%◌, ◌≤◌, ◌≡◌, refl, sym, ap, ◌∙◌, Bool, true, false, List, [], ◌∷◌, ◌++◌,
  append_assoc, append-nil, length, length-append, length-map, take-map, take-append, leb_iff, map,
  some, ok, arith,
}
use mach_ports_rs.Abi.{Platform, IsDarwin}
use mach_ports_rs.MsgBits
use mach_ports_rs.MsgBits.Fields.{Fields, Fit, encode, getters, from_bits-encode, into_complex_lem}
use mach_ports_rs.Buffer.{Buffer, Cell, to_ne_bytes, slice_to}
use mach_ports_rs.Buffer.Holds.{Holds}
use mach_ports_rs.Desc.{Layout, IsLayout}
use mach_ports_rs.Desc.Read.{Item, item_bytes, item_size, port_item, ool_item, length-item_bytes}
use mach_ports_rs.Builder.{Builder}

abbrev pub some_descs : List Item → Bool
some_descs [] = false
some_descs (i ∷ is) = true

abbrev pub items_bytes : Layout → List Item → List ℕ
items_bytes l [] = []
items_bytes l (i ∷ is) = item_bytes l i ++ items_bytes l is

abbrev pub items_size : List Item → ℕ
items_size [] = 0
items_size (i ∷ is) = item_size i + items_size is

-- What stands before the inline data: nothing, or the number of descriptors and the descriptors.
abbrev pub desc_area : Layout → List Item → List ℕ
desc_area l [] = []
desc_area l (i ∷ is) = to_ne_bytes (length (i ∷ is)) ++ items_bytes l (i ∷ is)

-- The builder holds these descriptors and this inline data, under a header with these bits.
pub record Builds (p : Platform) (l : Layout) (b : Builder) (f : Fields) (descs : List Item)
    (inline : List ℕ) : Type 0 where
  pub holds : Holds p b.buffer (desc_area l descs ++ inline)
  pub off : b.inline_data_off ≡ length (desc_area l descs)
  pub bits : b.buffer.header.msgh_bits ≡ encode f
  pub fit : Fit f
  pub complex : f.complex ≡ some_descs descs

pub length-to_ne_bytes : (n : ℕ) → length (to_ne_bytes n) ≡ 4
unfolding to_ne_bytes
length-to_ne_bytes n = refl

-- The same of a buffer, whatever builder it is in.
pub record Carries (p : Platform) (l : Layout) (b : Buffer) (f : Fields) (descs : List Item)
    (inline : List ℕ) : Type 0 where
  pub holds : Holds p b (desc_area l descs ++ inline)
  pub bits : b.header.msgh_bits ≡ encode f
  pub fit : Fit f
  pub complex : f.complex ≡ some_descs descs

pub Builds-Carries :
    {p : Platform} {l : Layout} {b : Builder} {f : Fields} {descs : List Item} {inline : List ℕ}
    → Builds p l b f descs inline
    → Carries p l b.buffer f descs inline
Builds-Carries h = record { holds = h.holds; bits = h.bits; fit = h.fit; complex = h.complex }

-- What the header bits of such a buffer say.
module _ {p : Platform} (d : IsDarwin p) {l : Layout} {b : Buffer} {f : Fields} {descs : List Item}
    {inline : List ℕ} (h : Carries p l b f descs inline) where
  pub bits_pass : MsgBits.from_bits p b.header.msgh_bits ≡ ok b.header.msgh_bits
  bits_pass = rw h.bits (from_bits-encode d f h.fit)

  pub complex_read : MsgBits.complex p b.header.msgh_bits ≡ some_descs descs
  complex_read = rw h.bits ((getters d f h.fit).0 ∙ h.complex)

  pub complex_set : MsgBits.into_complex p b.header.msgh_bits ≡ encode (record f { complex = true })
  complex_set = rw h.bits (into_complex_lem d f h.fit)

-- The first four bytes of a message with descriptors are their number.
pub count_cells :
    (l : Layout) (descs : List Item) (inline : List ℕ)
    → some_descs descs ≡ true
    → slice_to 4 (map some (desc_area l descs ++ inline))
      ≡ ok (map some (to_ne_bytes (length descs)))
count_cells l [] inline e = cc
count_cells l (j ∷ is) inline e = rw (
  length-map {0, 0} {A = ℕ} {B = Cell} some (desc_area l (j ∷ is) ++ inline),
  (leb_iff 4 (length (desc_area l (j ∷ is) ++ inline))).1 (omega (arith, length_area)),
  take-map {0, 0} {A = ℕ} {B = Cell} some 4 (desc_area l (j ∷ is) ++ inline),
  append_assoc (to_ne_bytes (length (j ∷ is))) (items_bytes l (j ∷ is)) inline,
  take-append (to_ne_bytes (length (j ∷ is))) (items_bytes l (j ∷ is) ++ inline) 4
      (sym (length-to_ne_bytes (length (j ∷ is)))),
)
  where
    length_area : 4 ≤ length (desc_area l (j ∷ is) ++ inline)
    length_area = omega (
      arith,
      length-append (desc_area l (j ∷ is)) inline,
      length-append (to_ne_bytes (length (j ∷ is))) (items_bytes l (j ∷ is)),
      length-to_ne_bytes (length (j ∷ is)),
    )

module _ (l : Layout) where
  pub items_bytes_snoc :
      (is : List Item) (i : Item)
      → items_bytes l (is ++ (i ∷ [])) ≡ items_bytes l is ++ item_bytes l i
  items_bytes_snoc [] i = append-nil (item_bytes l i)
  items_bytes_snoc (j ∷ is) i =
      ap (λ r. item_bytes l j ++ r) (items_bytes_snoc is i)
      ∙ sym (append_assoc (item_bytes l j) (items_bytes l is) (item_bytes l i))

  pub length-snoc : (is : List Item) (i : Item) → length (is ++ (i ∷ [])) ≡ suc (length is)
  length-snoc [] i = refl
  length-snoc (j ∷ is) i = ap suc (length-snoc is i)

  -- One more descriptor: the count is one higher, and its bytes stand behind the others'.
  pub desc_area_snoc :
      (is : List Item) (i : Item) (inline : List ℕ)
      → (to_ne_bytes (suc (length is)) ++ items_bytes l is) ++ (item_bytes l i ++ inline)
        ≡ desc_area l (is ++ (i ∷ [])) ++ inline
  desc_area_snoc [] i inline = simp (append-nil, append_assoc)
  desc_area_snoc (j ∷ is) i inline =
      rw (length-snoc is i, items_bytes_snoc is i) (simp append_assoc)

  pub length-desc_area_snoc :
      (is : List Item) (i : Item)
      → length (to_ne_bytes (suc (length is)) ++ items_bytes l is) + length (item_bytes l i)
        ≡ length (desc_area l (is ++ (i ∷ [])))
  length-desc_area_snoc is i =
      sym (length-append (to_ne_bytes (suc (length is)) ++ items_bytes l is) (item_bytes l i))
      ∙ ap length (simp append-nil at (desc_area_snoc is i []))

  pub some_descs_snoc : (is : List Item) (i : Item) → some_descs (is ++ (i ∷ [])) ≡ true
  some_descs_snoc [] i = refl
  some_descs_snoc (j ∷ is) i = refl

pub item_size_bounds : (i : Item) → (12 ≤ item_size i) × (item_size i ≤ 16)
item_size_bounds (port_item x) = omega arith
item_size_bounds (ool_item x) = omega arith

module _ {p : Platform} (d : IsDarwin p) {l : Layout} (lay : IsLayout p l) where
  pub length-items_bytes : (is : List Item) → length (items_bytes l is) ≡ items_size is
  length-items_bytes [] = refl
  length-items_bytes (i ∷ is) = omega (
    arith,
    length-append (item_bytes l i) (items_bytes l is),
    length-item_bytes d lay i,
    length-items_bytes is,
  )

-- Every descriptor takes a multiple of four bytes.
pub items_size_aligned : (is : List Item) → items_size is % 4 ≡ 0
items_size_aligned [] = refl
items_size_aligned (port_item x ∷ is) = omega (arith, items_size_aligned is)
items_size_aligned (ool_item x ∷ is) = omega (arith, items_size_aligned is)

pub length-le-items_size : (is : List Item) → length is ≤ items_size is
length-le-items_size [] = omega arith
length-le-items_size (port_item x ∷ is) = omega (arith, length-le-items_size is)
length-le-items_size (ool_item x ∷ is) = omega (arith, length-le-items_size is)

pub item_aligned : (i : Item) → item_size i % 4 ≡ 0
item_aligned (port_item x) = refl
item_aligned (ool_item x) = refl

pub length-le-desc_area :
    {p : Platform} (d : IsDarwin p) {l : Layout} (lay : IsLayout p l) (is : List Item)
    → length is ≤ length (desc_area l is)
length-le-desc_area d lay [] = omega arith
length-le-desc_area d {l} lay (i ∷ is) = omega (
  arith,
  length-append (to_ne_bytes (length (i ∷ is))) (items_bytes l (i ∷ is)),
  length-items_bytes d lay (i ∷ is),
  length-le-items_size (i ∷ is),
)
