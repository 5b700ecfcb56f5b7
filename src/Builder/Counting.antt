-- ===== src/Builder/Counting.antt =====
-- The number of descriptors at the front of a message, before a descriptor is put behind the others.
use mach_ports_rs.Prelude.{
  ℕ, suc, ◌+◌, ◌*◌, ◌^◌, ◌<◌, ◌≤◌, ◌≡◌, refl, ◌∙◌, ◌⊎◌, inl, inr, true, some, List, [], ◌∷◌, ◌++◌,
  map, write_at, append_assoc, append-nil, length, length-append, arith, Returns, returns,
  Returns-bind, add_word-ok, try_into-some, ==_iff, debug_assert-ok,
}
use mach_ports_rs.Abi.{Platform, IsDarwin}
use mach_ports_rs.MsgBits.Fields.{Fields, encode}
use mach_ports_rs.Buffer.{Buffer, Cell, Header, to_ne_bytes}
use mach_ports_rs.Buffer.Holds.{
  with_header-Holds, Holds, body-ok, bytes_of-some, from_ne_bytes-to_ne_bytes,
}
use mach_ports_rs.Buffer.Growth.{Served, reserve-IsReserved}
use mach_ports_rs.Buffer.Insert.{insert-IsExtended, overwrite}
use mach_ports_rs.Desc.{Layout}
use mach_ports_rs.Desc.Read.{Item}
use mach_ports_rs.Builder.{Builder, write_count, inc_desc_count}
use mach_ports_rs.Builder.Message.{
  items_bytes, Builds, Builds-Carries, bits_pass, complex_read, complex_set, count_cells,
  length-to_ne_bytes,
}

abbrev pub marked : Header → Fields → Header
marked h f = record h { msgh_bits = encode (record f { complex = true }) }

-- The capacity stays unless the message, with `n` bytes more, comes to fill more than two thirds of it.
abbrev pub Keeps : Builder → Builder → ℕ → Type 0
Keeps b b' n =
    (b'.buffer.capacity ≡ b.buffer.capacity)
    ⊎ (b.buffer.capacity + b.buffer.capacity < 3 * (b.buffer.len + n))

-- `inc_desc_count` has counted one more descriptor, and has left room for `n` bytes.
pub record IsCounted (p : Platform) (l : Layout) (b : Builder) (f : Fields) (descs : List Item)
    (inline : List ℕ) (n : ℕ) (b' : Builder) : Type 0 where
  pub holds :
      Holds p b'.buffer ((to_ne_bytes (suc (length descs)) ++ items_bytes l descs) ++ inline)
  pub off : b'.inline_data_off ≡ 4 + length (items_bytes l descs)
  pub header : b'.buffer.header ≡ marked b.buffer.header f
  pub room : b'.buffer.len + n ≤ b'.buffer.capacity
  pub bound : b'.buffer.capacity < 2 ^ 30 + 2 ^ 10
  pub kept : (b'.buffer.capacity ≡ b.buffer.capacity) ⊎ (b.buffer.capacity < b.buffer.len + n + 4)
  pub len_le : b'.buffer.len ≤ b.buffer.len + 4

marked_same :
    {p : Platform} {l : Layout} {b : Builder} {f : Fields} {descs : List Item} {inline : List ℕ}
    → Builds p l b f descs inline
    → f.complex ≡ true
    → b.buffer.header ≡ marked b.buffer.header f
marked_same {b} {f} h e = ground (arith, h.bits)

module _ {p : Platform} (d : IsDarwin p) (served : Served p) {l : Layout} (n : ℕ)
    (small_desc : n ≤ 16) {b : Builder} {f : Fields} (inline : List ℕ)
    (small : b.buffer.capacity < 2 ^ 28) where
  -- The first descriptor: the complex bit is set and the count is inserted.
  pub inc_first :
      Builds p l b f [] inline → Returns (IsCounted p l b f [] inline n) (inc_desc_count p b n)
  unfolding inc_desc_count
  inc_first h =
      rw
        (
          bits_pass d (Builds-Carries h),
          complex_read d (Builds-Carries h),
          complex_set d (Builds-Carries h),
          try_into-some 32 (n + 4) (omega arith),
        )
        (Returns-bind
          (reserve-IsReserved d served {b = b'} {bs = inline} (n + 4) holds
            (omega (arith, h.holds.len_le)) (omega arith))
          (λ r hr.
            Returns-bind
              (insert-IsExtended d served [] inline (to_ne_bytes 1) hr.holds
                (inl
                  (omega (arith, hr.room, hr.holds.len_eq, h.holds.len_eq, length-to_ne_bytes 1)))
                (omega (arith, length-to_ne_bytes 1, hr.bound)))
              (λ q hq. rw (debug_assert-ok p.profile ((==_iff b.inline_data_off 0).1 h.off)) (
                returns (record {
                  holds = rw append-nil hq.holds;
                  off = refl;
                  header = hq.header ∙ hr.header;
                  room = omega (
                    arith,
                    hr.room,
                    hr.grown,
                    hq.grown,
                    hq.holds.len_eq,
                    h.holds.len_eq,
                    length-append (to_ne_bytes 1) inline,
                    length-to_ne_bytes 1,
                  );
                  bound = omega (arith, hr.bound, hq.bound, length-to_ne_bytes 1);
                  kept =
                      either_kept r q hr.kept hq.kept
                        (omega (arith, hr.holds.len_eq, h.holds.len_eq));
                  len_le = omega (
                    arith,
                    hq.holds.len_eq,
                    h.holds.len_eq,
                    length-append (to_ne_bytes 1) inline,
                    length-to_ne_bytes 1,
                  );
                })))))
    where
      b' : Buffer
      b' = record (b.buffer) { header = marked b.buffer.header f }

      holds : Holds p b' inline
      holds = with_header-Holds _ h.holds

      either_kept :
          (r q : Buffer)
          → (r.capacity ≡ b.buffer.capacity) ⊎ (b.buffer.capacity < b.buffer.len + (n + 4))
          → (q.capacity ≡ r.capacity)
            ⊎ (r.capacity + r.capacity < r.len + r.len + (length (to_ne_bytes 1) + 0))
          → r.len ≡ b.buffer.len
          → (q.capacity ≡ b.buffer.capacity) ⊎ (b.buffer.capacity < b.buffer.len + n + 4)
      either_kept r q (inr more) k e = inr (omega arith)
      either_kept r q (inl same) (inl same') e = inl (omega arith)
      either_kept r q (inl same) (inr more) e = inr (omega (arith, length-to_ne_bytes 1))

  -- Another descriptor: the count at the start of the body is raised.
  pub inc_more :
      (j : Item) (is : List Item)
      → length (j ∷ is) < 2 ^ 28
      → Builds p l b f (j ∷ is) inline
      → Returns (IsCounted p l b f (j ∷ is) inline n) (inc_desc_count p b n)
  unfolding inc_desc_count write_count
  inc_more j is few h =
      rw
        (
          bits_pass d (Builds-Carries h),
          complex_read d (Builds-Carries h),
          body-ok h.holds,
          count_cells l (j ∷ is) inline refl,
          bytes_of-some (to_ne_bytes (length (j ∷ is))),
          from_ne_bytes-to_ne_bytes (length (j ∷ is)) (omega arith),
          add_word-ok p.profile 32 (length (j ∷ is)) 1 (omega arith),
        )
        (rw (one_more, new.1, try_into-some 32 n (omega arith))
          (Returns-bind
            (reserve-IsReserved d served {b = record (b.buffer) { mem = new.0 }} {bs = raised} n
              new.2 (omega (arith, h.holds.len_le)) (omega arith))
            (λ r hr. returns (record {
              holds = rw append_assoc hr.holds;
              off = omega (
                arith,
                h.off,
                length-append (to_ne_bytes (length (j ∷ is))) (items_bytes l (j ∷ is)),
                length-to_ne_bytes (length (j ∷ is)),
              );
              header = hr.header ∙ marked_same h h.complex;
              room = omega (arith, hr.room, hr.holds.len_eq, new.2.len_eq);
              bound = omega (arith, hr.bound);
              kept = either_kept r (hr.kept);
              len_le = omega (arith, hr.holds.len_eq, new.2.len_eq);
            }))))
    where
      either_kept :
          (r : Buffer)
          → (r.capacity ≡ b.buffer.capacity) ⊎ (b.buffer.capacity < b.buffer.len + n)
          → (r.capacity ≡ b.buffer.capacity) ⊎ (b.buffer.capacity < b.buffer.len + n + 4)
      either_kept r (inl same) = inl same
      either_kept r (inr more) = inr (omega arith)

      one_more : suc (length is) + 1 ≡ suc (length (j ∷ is))
      one_more = omega arith

      raised : List ℕ
      raised = to_ne_bytes (suc (length (j ∷ is))) ++ (items_bytes l (j ∷ is) ++ inline)

      old : Holds p b.buffer (to_ne_bytes (length (j ∷ is)) ++ (items_bytes l (j ∷ is) ++ inline))
      old = rw append_assoc at (h.holds)

      new :
          (mem : List Cell) × (write_at b.buffer.mem 0
              (map some (to_ne_bytes (suc (length (j ∷ is)))))
            ≡ some mem)
          × Holds p (record (b.buffer) { mem = mem }) raised
      new =
          overwrite (to_ne_bytes (length (j ∷ is))) (to_ne_bytes (suc (length (j ∷ is))))
            (items_bytes l (j ∷ is) ++ inline) old
            (omega (
              arith,
              length-to_ne_bytes (length (j ∷ is)),
              length-to_ne_bytes (suc (length (j ∷ is))),
            ))
