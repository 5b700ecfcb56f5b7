-- ===== src/Desc/References.antt =====
-- The references that msg/parser.rs forms to the descriptors of a buffer, and whether they have the
-- alignment of their types. The alignment that mach2 gives `mach_msg_ool_descriptor_t` is a
-- parameter: mach/message.h packs the structure to four bytes, and the comment at parser.rs:134 takes
-- it to be larger.
use mach_ports_rs.Prelude.{
  ℕ, zero, suc, ◌+◌, ◌%◌, ◌≡◌, refl, ◌↔◌, true, List, [], ◌∷◌, ◌++◌, Outcome, ok, panic, undefined,
  arith,
}
use native.Mathlib.Nat.{dvd-add, dvd_trans, dvd_of_mod-eq-zero, mod-eq-zero_of_dvd}
use mach_ports_rs.Abi.{Platform, IsDarwin}
use mach_ports_rs.Buffer.{Buffer}
use mach_ports_rs.Desc.{
  Layout, TransmutedMsgDesc, port, ool, ool_volatile, ool_ports, next_desc_impl,
}

-- `&*ptr`: where it points to, and the alignment of what it is said to point to.
pub record Reference : Type 0 where
  pub address : ℕ
  pub align : ℕ

abbrev pub IsAligned : Reference → Type 0
IsAligned r = r.address % r.align ≡ 0

abbrev pub AreAligned : List Reference → Type 0
AreAligned [] = Unit
AreAligned (r ∷ rs) = IsAligned r × AreAligned rs

module _ (p : Platform) (l : Layout) (ool_align base : ℕ) where
  abbrev pub reference : (offset align : ℕ) → Reference
  reference offset align = record { address = base + (p.header_size + offset); align = align }

  -- The references to the descriptor at `offset` of a buffer at `base`: first as to a port
  -- descriptor, for its type, and then as to what it is. An OOL ports descriptor is referenced only
  -- after its alignment is asserted.
  unfoldable pub desc_references : ℕ → TransmutedMsgDesc → List Reference
  desc_references offset (port x) =
      reference offset p.port_descriptor_align ∷ reference offset p.port_descriptor_align ∷ []
  desc_references offset (ool x) =
      reference offset p.port_descriptor_align ∷ reference offset ool_align ∷ []
  desc_references offset (ool_volatile x) =
      reference offset p.port_descriptor_align ∷ reference offset ool_align ∷ []
  desc_references offset ool_ports = reference offset p.port_descriptor_align ∷ []

  abbrev pub references_from :
      ℕ → Outcome (TransmutedMsgDesc × ℕ) → (ℕ → List Reference) → List Reference
  references_from offset (ok (desc, next_offset)) others =
      desc_references offset desc ++ others next_offset
  references_from offset panic others = []
  references_from offset undefined others = []

  -- Those of up to `count` descriptors, from `offset` on.
  abbrev pub references : Buffer → (count offset : ℕ) → List Reference
  references b zero offset = []
  references b (suc count) offset =
      references_from offset (next_desc_impl p l b offset true) (references b count)

module _ (p : Platform) (l : Layout) where
  next_desc_impl-aligned :
      (b : Buffer) (offset : ℕ) (r : TransmutedMsgDesc × ℕ)
      → next_desc_impl p l b offset true ≡ ok r
      → (p.header_size + offset) % p.port_descriptor_align ≡ 0
  unfolding next_desc_impl
  next_desc_impl-aligned b offset r e = ground (arith, e)

  module _ (ool_align base : ℕ) (packed : p.port_descriptor_align % ool_align ≡ 0)
      (placed : base % p.port_descriptor_align ≡ 0) where
    port-IsAligned :
        (offset : ℕ)
        → (p.header_size + offset) % p.port_descriptor_align ≡ 0
        → IsAligned (reference p l ool_align base offset p.port_descriptor_align)
    port-IsAligned offset e = mod-eq-zero_of_dvd p.port_descriptor_align (
        dvd-add p.port_descriptor_align (dvd_of_mod-eq-zero p.port_descriptor_align placed)
          (dvd_of_mod-eq-zero p.port_descriptor_align e))

    ool-IsAligned :
        (offset : ℕ)
        → (p.header_size + offset) % p.port_descriptor_align ≡ 0
        → IsAligned (reference p l ool_align base offset ool_align)
    ool-IsAligned offset e = mod-eq-zero_of_dvd ool_align (
        dvd_trans ool_align (dvd_of_mod-eq-zero ool_align packed)
          (dvd_of_mod-eq-zero p.port_descriptor_align (port-IsAligned offset e)))

    desc_references-AreAligned :
        (offset : ℕ) (desc : TransmutedMsgDesc) (others : List Reference)
        → (p.header_size + offset) % p.port_descriptor_align ≡ 0
        → AreAligned others
        → AreAligned (desc_references p l ool_align base offset desc ++ others)
    unfolding desc_references
    desc_references-AreAligned offset (port x) others e rest =
        (port-IsAligned offset e, (port-IsAligned offset e, rest))
    desc_references-AreAligned offset (ool x) others e rest =
        (port-IsAligned offset e, (ool-IsAligned offset e, rest))
    desc_references-AreAligned offset (ool_volatile x) others e rest =
        (port-IsAligned offset e, (ool-IsAligned offset e, rest))
    desc_references-AreAligned offset ool_ports others e rest = (port-IsAligned offset e, rest)

    from-AreAligned :
        (offset : ℕ) (o : Outcome (TransmutedMsgDesc × ℕ)) (others : ℕ → List Reference)
        → ((r : TransmutedMsgDesc × ℕ)
            → o ≡ ok r
            → (p.header_size + offset) % p.port_descriptor_align ≡ 0)
        → ((next_offset : ℕ) → AreAligned (others next_offset))
        → AreAligned (references_from p l ool_align base offset o others)
    from-AreAligned offset (ok (desc, next_offset)) others checked rest =
        desc_references-AreAligned offset desc (others next_offset)
          (checked (desc, next_offset) refl) (rest next_offset)
    from-AreAligned offset panic others checked rest = tt
    from-AreAligned offset undefined others checked rest = tt

    -- In a buffer that is aligned for port descriptors, all references are aligned, if the type of
    -- an OOL descriptor needs no more.
    pub references-AreAligned :
        (b : Buffer) (count offset : ℕ) → AreAligned (references p l ool_align base b count offset)
    references-AreAligned b zero offset = tt
    references-AreAligned b (suc count) offset =
        from-AreAligned offset (next_desc_impl p l b offset true)
          (references p l ool_align base b count) (next_desc_impl-aligned b offset)
          (references-AreAligned b count)

  -- If the type needs eight bytes, the reference to an OOL descriptor is aligned only at multiples of
  -- eight in the body: the first descriptor, at 4, never is.
  ool_reference_eight :
      IsDarwin p
      → (base offset : ℕ) → base % 8 ≡ 0
      → IsAligned (reference p l 8 base offset 8) ↔ (offset % 8 ≡ 0)
  ool_reference_eight d base offset placed =
      (λ e. omega (arith, e, d.header_size, placed), λ e. omega (arith, e, d.header_size, placed))
