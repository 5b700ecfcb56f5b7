-- ===== src/Builder/Session.antt =====
-- One call of a builder, and a builder over a new buffer, against the message that is described.
use mathlib.Core.Path.{subst}
use mach_ports_rs.Prelude.{
  ℕ, ◌+◌, ◌*◌, ◌^◌, ◌<◌, ◌≤◌, ◌≡◌, inl, inr, refl, ap, ◌∙◌, true, false, List, [], ◌∷◌, ◌++◌,
  length, length-append, length-take, take, drop, take-append-drop, if◌then◌else◌, Returns, returns,
  Returns-mono, arith,
}
use mach_ports_rs.Abi.{Platform, IsDarwin}
use mach_ports_rs.MsgBits.Fields.{Fields, fields}
use mach_ports_rs.Buffer
use mach_ports_rs.Buffer.{Buffer, Header, zero_header, to_ne_bytes}
use mach_ports_rs.Buffer.Holds.{with_header-Holds, with_capacity-Holds}
use mach_ports_rs.Buffer.Growth.{Served}
use mach_ports_rs.Rights.{msg_type}
use mach_ports_rs.Desc.{Layout, IsLayout}
use mach_ports_rs.Desc.Read.{Item, item_bytes, length-item_bytes}
use mach_ports_rs.Builder
use mach_ports_rs.Builder.{Builder, Region, CopyKind}
use mach_ports_rs.Builder.Message.{
  some_descs, some_descs_snoc, desc_area, items_bytes, items_size, Builds, length-to_ne_bytes,
  length-items_bytes,
}
use mach_ports_rs.Builder.Counting.{Keeps, marked}
use mach_ports_rs.Builder.Calls.{
  port_desc, ool_desc, Gains, append_rights-Gains, append_ool-Gains, append_inline_data-Builds,
  insert_inline_data-Builds,
}
use mach_ports_rs.Builder.Draft.{
  Call, perform, Draft, with_desc, amend, CallFits, draft_size, Realizes, items_size_snoc,
  length-cut, append_made, append_copied, append_moved, append_ool, append_consumed_ool,
  append_inline, insert_inline, set_id,
}

module _ {p : Platform} (d : IsDarwin p) {l : Layout} (lay : IsLayout p l) where
  length-desc_area : (is : List Item) → length (desc_area l is) ≤ 4 + items_size is
  length-desc_area [] = omega arith
  length-desc_area (i ∷ is) = omega (
    arith,
    length-append (to_ne_bytes (length (i ∷ is))) (items_bytes l (i ∷ is)),
    length-to_ne_bytes (length (i ∷ is)),
    length-items_bytes d lay (i ∷ is),
  )

kept_capacity :
    (b b' : Builder) (n cap : ℕ)
    → Keeps b b' n
    → b.buffer.capacity ≡ cap
    → 3 * (b.buffer.len + n) ≤ cap + cap
    → b'.buffer.capacity ≡ cap
kept_capacity b b' n cap (inl same) e le = same ∙ e
kept_capacity b b' n cap (inr more) e le = absurd (omega arith)

module _ {p : Platform} (d : IsDarwin p) (served : Served p) {l : Layout} (lay : IsLayout p l)
    (h : Header) (f : Fields) (cap : ℕ) (small : cap < 2 ^ 28) where
  len_le : (m : Draft) (b : Builder) → Realizes p l h f cap m b → b.buffer.len + 4 ≤ draft_size m
  len_le m b r = omega (
    arith,
    r.builds.holds.len_eq,
    length-append (desc_area l m.descs) m.inline,
    length-desc_area d lay m.descs,
  )

  gained :
      (m : Draft) (b : Builder) (i : Item)
      → Realizes p l h f cap m b
      → 3 * draft_size (with_desc m i) ≤ cap + cap
      → (b' : Builder)
      → Gains p l b (record f { complex = some_descs m.descs }) m.descs m.inline i b'
      → Realizes p l h f cap (with_desc m i) b'
  gained m b i r le b' (builds, header, keeps) = record {
    builds = rw (some_descs_snoc l m.descs i) builds;
    capacity =
        kept_capacity b b' (4 + length (item_bytes l i)) cap keeps r.capacity
          (omega (arith, le, len_le m b r, items_size_snoc m.descs i, length-item_bytes d lay i));
    header =
        rw (some_descs_snoc l m.descs i)
          (header ∙ ap (λ z. marked z (record f { complex = some_descs m.descs })) r.header);
  }

  wrote :
      (m : Draft) (b : Builder) (inline ys : List ℕ)
      → Realizes p l h f cap m b
      → length inline ≡ length m.inline + length ys
      → 3 * draft_size (record m { inline = inline }) ≤ cap + cap
      → (b' : Builder)
      → Builds p l b' (record f { complex = some_descs m.descs }) m.descs inline
        × (b'.buffer.header ≡ b.buffer.header)
        × Keeps b b' (length ys)
      → Realizes p l h f cap (record m { inline = inline }) b'
  wrote m b inline ys r longer le b' (builds, header, keeps) = record {
    builds = builds;
    capacity =
        kept_capacity b b' (length ys) cap keeps r.capacity
          (omega (arith, le, len_le m b r, longer));
    header = header ∙ r.header;
  }

  -- Each call does to the builder what it does to the draft.
  pub perform-Realizes :
      (m : Draft) (b : Builder) (c : Call)
      → Realizes p l h f cap m b
      → CallFits m c
      → 3 * draft_size (amend p m c) ≤ cap + cap
      → Returns (Realizes p l h f cap (amend p m c)) (perform p l b c)
  unfolding perform
  perform-Realizes m b (append_made right once) r fits le =
      Returns-mono
        ((append_rights-Gains d served lay (omega (arith, r.capacity, small)) r.builds).0 right
          once)
        (gained m b (port_desc p right.name (if once then p.make_send_once else p.make_send)) r le)
  perform-Realizes m b (append_copied right) r fits le =
      Returns-mono
        ((append_rights-Gains d served lay (omega (arith, r.capacity, small)) r.builds).1 right)
        (gained m b (port_desc p right.name p.copy_send) r le)
  perform-Realizes m b (append_moved kind right) r fits le =
      Returns-mono
        ((append_rights-Gains d served lay (omega (arith, r.capacity, small)) r.builds).2 kind
          right)
        (gained m b (port_desc p right.name (msg_type p kind)) r le)
  perform-Realizes m b (append_ool region kind) r fits le =
      Returns-mono
        ((append_ool-Gains d served lay (omega (arith, r.capacity, small)) r.builds region kind
          fits).0)
        (gained m b (ool_desc p region false kind) r le)
  perform-Realizes m b (append_consumed_ool region kind) r fits le =
      Returns-mono
        ((append_ool-Gains d served lay (omega (arith, r.capacity, small)) r.builds region kind
          fits).1)
        (gained m b (ool_desc p region true kind) r le)
  perform-Realizes m b (append_inline bytes) r fits le =
      Returns-mono
        (append_inline_data-Builds d served (omega (arith, r.capacity, small)) m.inline bytes
          r.builds (omega (arith, le, small, length-append m.inline bytes))
          (inl (omega (arith, le, r.capacity, len_le m b r, length-append m.inline bytes))))
        (wrote m b (m.inline ++ bytes) bytes r (length-append m.inline bytes) le)
  perform-Realizes m b (insert_inline at bytes) r fits le =
      subst
        (λ n.
          Returns (Realizes p l h f cap (amend p m (insert_inline at bytes)))
            (Builder.insert_inline_data p b n bytes))
        place
        (Returns-mono
          (insert_inline_data-Builds d served (omega (arith, r.capacity, small)) (take at m.inline)
            (drop at m.inline) bytes (rw take-append-drop r.builds)
            (omega (arith, le, small, length-cut at m.inline bytes))
            (inl (omega (arith, le, r.capacity, len_le m b r, length-cut at m.inline bytes))))
          (wrote m b (take at m.inline ++ (bytes ++ drop at m.inline)) bytes r
            (length-cut at m.inline bytes) le))
    where
      place : length (take at m.inline) ≡ at
      place = omega (arith, length-take at m.inline, fits)
  perform-Realizes m b (set_id id) r fits le = returns (record {
    builds = record {
      holds = with_header-Holds _ r.builds.holds;
      off = r.builds.off;
      bits = r.builds.bits;
      fit = r.builds.fit;
      complex = r.builds.complex;
    };
    capacity = r.capacity;
    header = ap (λ (z : Header). record z { msgh_id = id }) r.header;
  })

abbrev pub empty_draft : Draft
empty_draft = record { descs = []; inline = []; id = 0 }

abbrev pub no_bits : Fields
no_bits = fields false 0 0 0

-- A builder over a new buffer holds the empty draft.
pub new-Realizes :
    {p : Platform} (d : IsDarwin p) (served : Served p) (l : Layout) (capacity : ℕ)
    → capacity < 2 ^ 28
    → Returns
        (λ b. Realizes p l zero_header no_bits capacity empty_draft (Builder.new b))
        (Buffer.with_capacity p capacity)
new-Realizes {p} d served l capacity small =
    Returns-mono
      (with_capacity-Holds d capacity (omega (arith, small))
        (served (Buffer.layout_for_capacity p capacity)))
      (λ b (holds, cap, header). record {
        builds = record {
          holds = holds;
          off = refl;
          bits = ap (λ (z : Header). z.msgh_bits) header;
          fit = record { remote = omega arith; local = omega arith; voucher = omega arith };
          complex = refl;
        };
        capacity = cap;
        header = header;
      })
