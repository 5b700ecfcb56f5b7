-- ===== src/Builder/Calls.antt =====
-- What each `append_*` and `insert_*` call of the builder adds to the message.
use mach_ports_rs.Prelude.{
  ℕ, ◌+◌, ◌^◌, ◌<◌, ◌≤◌, ◌≡◌, refl, sym, ap, ◌∙◌, ◌⊎◌, inl, inr, Bool, true, false, List, [], ◌∷◌,
  ◌++◌, append_assoc, length, length-append, arith, if◌then◌else◌, Returns, returns, Returns-bind,
  add_word-ok, try_into-some,
}
use mach_ports_rs.Abi.{Platform, IsDarwin}
use mach_ports_rs.MsgBits.Fields.{Fields}
use mach_ports_rs.Buffer.{Buffer}
use mach_ports_rs.Buffer.Growth.{Served, Makes}
use mach_ports_rs.Buffer.Insert.{append-IsExtended, insert-IsExtended}
use mach_ports_rs.Rights.{RightKind, Right, SendRight, RecvRight, msg_type}
use mach_ports_rs.Desc.{Layout, IsLayout}
use mach_ports_rs.Desc.Read.{Item, item_bytes, port_item, ool_item}
use mach_ports_rs.Builder.{
  Builder, with_buffer, Region, CopyKind, made, copy_options, append_port_descriptor,
  append_made_send_right, append_copied_send_right, append_moved_right, append_ool_descriptor,
  append_ool_data, append_consumed_ool_data, append_inline_data, insert_inline_data,
}
use mach_ports_rs.Builder.Message.{desc_area, Builds}
use mach_ports_rs.Builder.Counting.{marked, Keeps}
use mach_ports_rs.Builder.Append.{append_descriptor-Builds}

-- The descriptors that the calls write.
abbrev pub port_desc : Platform → (name disposition : ℕ) → Item
port_desc p name disposition =
    port_item (record { name = name; disposition = disposition; type_ = p.port_descriptor })

abbrev pub ool_desc : Platform → Region → Bool → CopyKind → Item
ool_desc p r deallocate kind = ool_item (record {
  address = r.address;
  deallocate = if deallocate then 1 else 0;
  copy = copy_options p kind;
  type_ = p.ool_descriptor;
  size = r.size;
})

-- The message has the descriptor `i` behind its others, and is otherwise as it was.
abbrev pub Gains :
    Platform → Layout → Builder → Fields → List Item → List ℕ → Item → Builder → Type 0
Gains p l b f descs inline i b' =
    Builds p l b' (record f { complex = true }) (descs ++ (i ∷ [])) inline
    × (b'.buffer.header ≡ marked b.buffer.header f)
    × Keeps b b' (4 + length (item_bytes l i))

module _ {p : Platform} (d : IsDarwin p) (served : Served p) {l : Layout} (lay : IsLayout p l)
    {b : Builder} {f : Fields} {descs : List Item} {inline : List ℕ}
    (small : b.buffer.capacity < 2 ^ 28) (h : Builds p l b f descs inline) where
  append_port_descriptor-Gains :
      (name disposition : ℕ)
      → Returns
          (Gains p l b f descs inline (port_desc p name disposition))
          (append_port_descriptor p l b name disposition)
  unfolding append_port_descriptor
  append_port_descriptor-Gains name disposition =
      rw (lay.port_new_fields name disposition)
        (append_descriptor-Builds d served lay descs inline (port_desc p name disposition) small h)

  append_ool_descriptor-Gains :
      (r : Region) (deallocate : Bool) (kind : CopyKind)
      → r.size < 2 ^ 32
      → Returns
          (Gains p l b f descs inline (ool_desc p r deallocate kind))
          (append_ool_descriptor p l b r deallocate kind)
  unfolding append_ool_descriptor
  append_ool_descriptor-Gains r deallocate kind lt =
      rw
        (
          try_into-some 32 r.size lt,
          lay.ool_new_fields r.address deallocate (copy_options p kind) r.size,
        )
        (append_descriptor-Builds d served lay descs inline (ool_desc p r deallocate kind) small h)

  -- Each of append_made_send_right, append_copied_send_right and append_moved_right, on a message
  -- of less than 2 ^ 28 bytes of capacity and with an allocator that serves every request, adds one
  -- port descriptor with the name of the right and the disposition of the call, and keeps the other
  -- descriptors, the inline data and the rest of the header; the capacity stays as it was unless
  -- three times the length with the new bytes exceeds twice it.
  pub append_rights-Gains :
      ((right : RecvRight) (once : Bool)
        → Returns
            (Gains p l b f descs inline
              (port_desc p right.name (if once then p.make_send_once else p.make_send)))
            (append_made_send_right p l b right once))
      × ((right : SendRight)
          → Returns
              (Gains p l b f descs inline (port_desc p right.name p.copy_send))
              (append_copied_send_right p l b right))
      × ((kind : RightKind) (right : Right kind)
          → Returns
              (Gains p l b f descs inline (port_desc p right.name (msg_type p kind)))
              (append_moved_right p l b right))
  unfolding append_made_send_right append_copied_send_right append_moved_right
  append_rights-Gains = (
    λ right once. append_port_descriptor-Gains right.name (made p once),
    λ right. append_port_descriptor-Gains right.name p.copy_send,
    λ kind right. append_port_descriptor-Gains right.name (msg_type p kind),
  )

  -- Append_ool_data and append_consumed_ool_data, on a message of less than 2 ^ 28 bytes of
  -- capacity, a region of less than 2 ^ 32 bytes and with an allocator that serves every request,
  -- add one out-of-line descriptor of the region, with deallocate set exactly for consumed memory;
  -- the capacity stays as it was unless three times the length with the new bytes exceeds twice it.
  pub append_ool-Gains :
      (r : Region) (kind : CopyKind)
      → r.size < 2 ^ 32
      → Returns
          (Gains p l b f descs inline (ool_desc p r false kind))
          (append_ool_data p l b r kind)
        × Returns
            (Gains p l b f descs inline (ool_desc p r true kind))
            (append_consumed_ool_data p l b r kind)
  unfolding append_ool_data append_consumed_ool_data
  append_ool-Gains r kind lt =
      (append_ool_descriptor-Gains r false kind lt, append_ool_descriptor-Gains r true kind lt)

module _ {p : Platform} (d : IsDarwin p) (served : Served p) {l : Layout} {b : Builder} {f : Fields}
    {descs : List Item} (small : b.buffer.capacity < 2 ^ 28) where
  -- Appended data stands behind the inline data whatever descriptors the message has, and
  -- descriptors and header stay as they are, when the room is made, the data and the capacity are
  -- below 2 ^ 28 and the allocator serves every request.
  pub append_inline_data-Builds :
      (inline ys : List ℕ)
      → Builds p l b f descs inline
      → length ys < 2 ^ 28
      → Makes b.buffer (length ys) (length ys)
      → Returns
          (λ b'.
            Builds p l b' f descs (inline ++ ys)
            × (b'.buffer.header ≡ b.buffer.header)
            × Keeps b b' (length ys))
          (append_inline_data p b ys)
  unfolding append_inline_data
  append_inline_data-Builds inline ys h lt makes =
      Returns-bind
        (append-IsExtended d served (desc_area l descs ++ inline) ys h.holds makes (omega arith))
        (λ q hq. returns (
          record {
            holds = rw (← append_assoc) hq.holds;
            off = h.off;
            bits = ap (λ r. r.msgh_bits) hq.header ∙ h.bits;
            fit = h.fit;
            complex = h.complex;
          },
          hq.header,
          keeps q hq.kept,
        ))
    where
      keeps :
          (q : Buffer)
          → (q.capacity ≡ b.buffer.capacity)
            ⊎ (b.buffer.capacity + b.buffer.capacity < b.buffer.len + b.buffer.len + length ys)
          → Keeps b (with_buffer b q) (length ys)
      keeps q (inl same) = inl same
      keeps q (inr more) = inr (omega arith)

  -- Data inserted at a place in the inline data stands at that place whatever descriptors the
  -- message has, and descriptors and header stay as they are, when the room is made, the data and
  -- the capacity are below 2 ^ 28 and the allocator serves every request; the capacity stays as it
  -- was unless three times the length with the new bytes exceeds twice it.
  pub insert_inline_data-Builds :
      (front back ys : List ℕ)
      → Builds p l b f descs (front ++ back)
      → length ys < 2 ^ 28
      → Makes b.buffer (length ys) (length ys + length (desc_area l descs ++ front))
      → Returns
          (λ b'.
            Builds p l b' f descs (front ++ (ys ++ back))
            × (b'.buffer.header ≡ b.buffer.header)
            × Keeps b b' (length ys))
          (insert_inline_data p b (length front) ys)
  unfolding insert_inline_data
  insert_inline_data-Builds front back ys h lt makes =
      rw
        (
          try_into-some 32 (length front) (omega (arith, within)),
          h.off,
          add_word-ok p.profile 32 (length (desc_area l descs)) (length front)
              (omega (arith, within)),
          sym (length-append (desc_area l descs) front),
        )
        (Returns-bind
          (insert-IsExtended d served (desc_area l descs ++ front) back ys (rw append_assoc h.holds)
            makes (omega (arith, within, length-append (desc_area l descs) front)))
          (λ q hq. returns (
            record {
              holds = rw (← append_assoc) hq.holds;
              off = refl;
              bits = ap (λ r. r.msgh_bits) hq.header ∙ h.bits;
              fit = h.fit;
              complex = h.complex;
            },
            hq.header,
            keeps q hq.kept,
          )))
    where
      keeps :
          (q : Buffer)
          → (q.capacity ≡ b.buffer.capacity)
            ⊎ (b.buffer.capacity + b.buffer.capacity
                < b.buffer.len + b.buffer.len + (length ys + length (desc_area l descs ++ front)))
          → Keeps b (with_buffer b q) (length ys)
      keeps q (inl same) = inl same
      keeps q (inr more) = inr (
          omega (
            arith,
            h.holds.len_eq,
            length-append (desc_area l descs) front,
            length-append (desc_area l descs) (front ++ back),
            length-append front back,
          ))

      within : length (desc_area l descs) + length front ≤ b.buffer.capacity
      within = omega (
        arith,
        h.holds.len_eq,
        h.holds.len_le,
        length-append (desc_area l descs) (front ++ back),
        length-append front back,
      )
