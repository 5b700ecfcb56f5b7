-- ===== src/Buffer/Growth.antt =====
-- `reserve`, `append` and `insert` where the room suffices.
use mach_ports_rs.Prelude.{
  ℕ, ◌+◌, ◌-◌, ◌/◌, ◌^◌, ◌≤◌, ◌<◌, ◌≡◌, ◌⊎◌, inl, inr, max, refl, ◌∙◌, ap, true, false, none, some,
  List, ◌++◌, append_assoc, map, length-append, length-replicate, replicate, arith, Returns,
  returns, Returns-mono, checked_add-some, sub_word-ok, ltb, Bool-cases,
}
use mach_ports_rs.Abi.{Platform, IsDarwin}
use mach_ports_rs.Buffer.{Cell, Buffer, layout_for_capacity, reserve, make_space}
use mach_ports_rs.Buffer.Holds.{Holds, layout_kept}

-- The allocator serves every request.
abbrev pub Served : Platform → Type 0
Served p = (n : ℕ) → p.allocates n ≡ true

-- What `reserve` promises: the same bytes in a buffer with room for `additional` more.
pub record IsReserved (p : Platform) (b : Buffer) (bs : List ℕ) (additional : ℕ) (b' : Buffer)
    : Type 0 where
  pub holds : Holds p b' bs
  pub header : b'.header ≡ b.header
  pub room : b.len + additional ≤ b'.capacity
  pub grown : b.capacity ≤ b'.capacity
  pub extent : b.capacity < b.len + additional → b.capacity + additional ≤ b'.capacity
  pub bound : b'.capacity ≤ b.capacity + b.capacity + additional
  pub kept : (b'.capacity ≡ b.capacity) ⊎ (b.capacity < b.len + additional)

module _ {p : Platform} (d : IsDarwin p) (served : Served p) where
  -- When the allocator serves every request and neither u32 sum overflows, reserve returns a buffer
  -- with the same bytes and header, a capacity of at least the length and the additional bytes
  -- together, and an allocation that the new capacity asks for.
  pub reserve-IsReserved :
      {b : Buffer} {bs : List ℕ} (additional : ℕ)
      → Holds p b bs
      → b.len + additional < 2 ^ 32
      → max (b.capacity / 2) additional + b.capacity < 2 ^ 32
      → Returns (IsReserved p b bs additional) (reserve p b additional)
  unfolding reserve
  reserve-IsReserved {b} {bs} additional h fits fits' =
      rw (checked_add-some 32 b.len additional fits)
        (elim (Bool-cases (ltb b.capacity (b.len + additional))) [
          | inl more ↦
              rw (more, checked_add-some 32 _ b.capacity fits', layout_kept h, served)
                (returns (record {
                  holds = record {
                    rest = h.rest ++ fresh;
                    mem_eq =
                        ap (λ m. m ++ fresh) h.mem_eq ∙ append_assoc (map some bs) h.rest fresh;
                    len_eq = h.len_eq;
                    len_le = omega (arith, h.len_le);
                    alloc_eq = omega (
                      arith,
                      h.alloc_eq,
                      length-append b.mem fresh,
                      length-replicate {0} {A = Cell}
                          (layout_for_capacity p new_capacity - layout_for_capacity p b.capacity)
                          none,
                      layout_mono,
                    );
                    cap_lt = fits';
                  };
                  header = refl;
                  room = omega (arith, h.len_le);
                  grown = omega arith;
                  extent = omega arith;
                  bound = omega arith;
                  kept = inr (ground arith);
                }))
          | inr enough ↦ rw enough (
              returns (record {
                holds = h;
                header = refl;
                room = ground arith;
                grown = omega arith;
                extent = ground arith;
                bound = omega arith;
                kept = inl refl;
              }))
        ])
    where
      new_capacity : ℕ
      new_capacity = max (b.capacity / 2) additional + b.capacity

      fresh : List Cell
      fresh = replicate (layout_for_capacity p new_capacity - layout_for_capacity p b.capacity) none

      layout_mono : layout_for_capacity p b.capacity ≤ layout_for_capacity p new_capacity
      layout_mono = unfold layout_for_capacity in rw (d.header_size, d.header_align) (omega arith)

-- What a write of `n` bytes needs: the same bytes, and room behind them.
pub record HasRoom (p : Platform) (b : Buffer) (bs : List ℕ) (n needed : ℕ) (b' : Buffer)
    : Type 0 where
  pub holds : Holds p b' bs
  pub header : b'.header ≡ b.header
  pub room : b.len + n ≤ b'.capacity
  pub grown : b.capacity ≤ b'.capacity
  pub bound : b'.capacity ≤ b.capacity + b.capacity + needed
  pub kept : (b'.capacity ≡ b.capacity) ⊎ (b.capacity + b.capacity < b.len + b.len + needed)

-- `make_space` leaves room for `n` bytes if they fit already, or if the capacity that it asks
-- `reserve` for exceeds the present one.
abbrev pub Makes : Buffer → (n needed : ℕ) → Type 0
Makes b n needed = (b.len + n ≤ b.capacity) ⊎ (b.capacity < b.len + (needed - (b.capacity - b.len)))

-- No `u32` of the growth overflows.
abbrev pub IsSmall : Buffer → ℕ → Type 0
IsSmall b needed = b.capacity + b.capacity + needed < 2 ^ 32

module _ {p : Platform} (d : IsDarwin p) (served : Served p) where
  pub make_space-HasRoom :
      {b : Buffer} {bs : List ℕ} (n needed : ℕ)
      → Holds p b bs
      → n ≤ needed
      → Makes b n needed
      → IsSmall b needed
      → Returns (HasRoom p b bs n needed) (make_space p b needed)
  unfolding make_space
  make_space-HasRoom {b} {bs} n needed h le makes small =
      rw (sub_word-ok p.profile 32 b.capacity b.len h.len_le)
        (elim (Bool-cases (ltb (b.capacity - b.len) needed)) [
          | inl short ↦ rw short (
              Returns-mono
                (reserve-IsReserved d served (needed - (b.capacity - b.len)) h
                  (omega (arith, h.len_le)) (omega arith))
                (λ b' r. record {
                  holds = r.holds;
                  header = r.header;
                  room = room b' r makes;
                  grown = r.grown;
                  bound = omega (arith, r.bound);
                  kept = kept b' r.kept (not_enough short);
                }))
          | inr enough ↦ rw enough (
              returns (record {
                holds = h;
                header = refl;
                room = omega (arith, h.len_le, not_short enough);
                grown = omega arith;
                bound = omega arith;
                kept = inl refl;
              }))
        ])
    where
      not_enough : ltb (b.capacity - b.len) needed ≡ true → b.capacity - b.len < needed
      not_enough e = ground arith

      kept :
          (b' : Buffer)
          → (b'.capacity ≡ b.capacity) ⊎ (b.capacity < b.len + (needed - (b.capacity - b.len)))
          → b.capacity - b.len < needed
          → (b'.capacity ≡ b.capacity) ⊎ (b.capacity + b.capacity < b.len + b.len + needed)
      kept b' (inl same) short = inl same
      kept b' (inr more) short = inr (omega (arith, h.len_le))

      not_short : ltb (b.capacity - b.len) needed ≡ false → needed ≤ b.capacity - b.len
      not_short e = ground arith

      room :
          (b' : Buffer)
          → IsReserved p b bs (needed - (b.capacity - b.len)) b'
          → Makes b n needed
          → b.len + n ≤ b'.capacity
      room b' r (inl fits) = omega (arith, r.grown)
      room b' r (inr more) = omega (arith, r.extent more, h.len_le)
