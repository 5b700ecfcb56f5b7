-- ===== src/Builder/Append.antt =====
-- `append_descriptor`: the descriptor stands behind the others, and is counted.
use mach_ports_rs.Prelude.{
  ℕ, suc, ◌+◌, ◌*◌, ◌^◌, ◌<◌, ◌≤◌, ◌≡◌, sym, ap, ◌∙◌, ◌⊎◌, inl, inr, true, List, [], ◌∷◌, ◌++◌,
  length, length-append, arith, Returns, returns, Returns-bind, add_word-ok, try_into-some, leb_iff,
  debug_assert-ok,
}
use mach_ports_rs.Abi.{Platform, IsDarwin}
use mach_ports_rs.MsgBits.Fields.{Fields}
use mach_ports_rs.Buffer.{Buffer, to_ne_bytes}
use mach_ports_rs.Buffer.Growth.{Served}
use mach_ports_rs.Buffer.Insert.{insert-IsExtended}
use mach_ports_rs.Desc.{Layout, IsLayout}
use mach_ports_rs.Desc.Read.{Item, item_bytes, length-item_bytes}
use mach_ports_rs.Builder.{Builder, inc_desc_count, append_descriptor}
use mach_ports_rs.Builder.Message.{
  items_bytes, desc_area, Builds, length-to_ne_bytes, desc_area_snoc, length-items_bytes,
  length-le-items_size, length-desc_area_snoc, some_descs_snoc, item_size_bounds,
}
use mach_ports_rs.Builder.Counting.{marked, Keeps, IsCounted, inc_first, inc_more}

-- Appending a descriptor of 12 or 16 bytes to a message of less than 2 ^ 28 bytes of capacity
-- returns, when the allocator serves every request, a message with the descriptor behind the
-- others, a count that is one higher, the complex bit set, and the inline data and the rest of the
-- header as they were; the capacity stays as it was unless three times the length with the new
-- bytes exceeds twice it.
pub append_descriptor-Builds :
    {p : Platform} (d : IsDarwin p) (served : Served p) {l : Layout} (lay : IsLayout p l)
    {b : Builder} {f : Fields} (descs : List Item) (inline : List ℕ) (i : Item)
    → b.buffer.capacity < 2 ^ 28
    → Builds p l b f descs inline
    → Returns
        (λ b'.
          Builds p l b' (record f { complex = true }) (descs ++ (i ∷ [])) inline
          × (b'.buffer.header ≡ marked b.buffer.header f)
          × Keeps b b' (4 + length (item_bytes l i)))
        (append_descriptor p b (item_bytes l i))
unfolding append_descriptor
append_descriptor-Builds {p} d served {l} lay {b} {f} descs inline i small h =
    rw
      (debug_assert-ok p.profile
        ((leb_iff p.port_descriptor_size n).1 (omega (arith, size, d.port_descriptor_size))))
      (Returns-bind (counted descs h) (λ c hc.
        rw (try_into-some 32 n (omega (arith, size)), at_front c hc)
          (Returns-bind
            (insert-IsExtended d served pre inline (item_bytes l i) hc.holds (inl hc.room)
              (omega (arith, size, hc.bound, within c hc)))
            (λ q hq.
              rw
                (add_word-ok p.profile 32 (length pre) n
                  (omega (arith, size, hc.bound, within c hc)))
                (returns (
                  record {
                    holds = rw (← desc_area_snoc l descs i inline) hq.holds;
                    off = length-desc_area_snoc l descs i;
                    bits = ap (λ r. r.msgh_bits) (hq.header ∙ hc.header);
                    fit = record {
                      remote = h.fit.remote;
                      local = h.fit.local;
                      voucher = h.fit.voucher;
                    };
                    complex = sym (some_descs_snoc l descs i);
                  },
                  hq.header ∙ hc.header,
                  keeps c q hc hq.kept,
                ))))))
  where
    n : ℕ
    n = length (item_bytes l i)

    pre : List ℕ
    pre = to_ne_bytes (suc (length descs)) ++ items_bytes l descs

    size : (12 ≤ n) × (n ≤ 16)
    size = omega (arith, item_size_bounds i, length-item_bytes d lay i)

    few : (j : Item) (is : List Item) → Builds p l b f (j ∷ is) inline → length (j ∷ is) < 2 ^ 28
    few j is k = omega (
      arith,
      length-le-items_size (j ∷ is),
      length-items_bytes d lay (j ∷ is),
      length-append (to_ne_bytes (length (j ∷ is))) (items_bytes l (j ∷ is)),
      length-append (desc_area l (j ∷ is)) inline,
      k.holds.len_eq,
      k.holds.len_le,
    )

    counted :
        (ds : List Item)
        → Builds p l b f ds inline
        → Returns (IsCounted p l b f ds inline n) (inc_desc_count p b n)
    counted [] k = inc_first d served n (size.1) inline small k
    counted (j ∷ is) k = inc_more d served n (size.1) inline small j is (few j is k) k

    at_front : (c : Builder) → IsCounted p l b f descs inline n c → c.inline_data_off ≡ length pre
    at_front c hc = omega (
      arith,
      hc.off,
      length-append (to_ne_bytes (suc (length descs))) (items_bytes l descs),
      length-to_ne_bytes (suc (length descs)),
    )

    both :
        (c : Builder) (q : Buffer)
        → (c.buffer.capacity ≡ b.buffer.capacity) ⊎ (b.buffer.capacity < b.buffer.len + n + 4)
        → (q.capacity ≡ c.buffer.capacity)
          ⊎ (c.buffer.capacity + c.buffer.capacity < c.buffer.len + c.buffer.len + (n + length pre))
        → c.buffer.len ≤ b.buffer.len + 4
        → length pre ≤ c.buffer.len
        → (q.capacity ≡ b.buffer.capacity)
          ⊎ (b.buffer.capacity + b.buffer.capacity < 3 * (b.buffer.len + (4 + n)))
    both c q (inr more) k le le' = inr (omega arith)
    both c q (inl same) (inl same') le le' = inl (omega arith)
    both c q (inl same) (inr more) le le' = inr (omega arith)

    pre_le : (c : Builder) → IsCounted p l b f descs inline n c → length pre ≤ c.buffer.len
    pre_le c hc = omega (arith, hc.holds.len_eq, length-append pre inline)

    keeps :
        (c : Builder) (q : Buffer)
        → IsCounted p l b f descs inline n c
        → (q.capacity ≡ c.buffer.capacity)
          ⊎ (c.buffer.capacity + c.buffer.capacity < c.buffer.len + c.buffer.len + (n + length pre))
        → (q.capacity ≡ b.buffer.capacity)
          ⊎ (b.buffer.capacity + b.buffer.capacity < 3 * (b.buffer.len + (4 + n)))
    keeps c q hc k = both c q hc.kept k hc.len_le (pre_le c hc)

    within : (c : Builder) → IsCounted p l b f descs inline n c → length pre ≤ c.buffer.capacity
    within c hc = omega (arith, hc.holds.len_eq, hc.holds.len_le, length-append pre inline)
