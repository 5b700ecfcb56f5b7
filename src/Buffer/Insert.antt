-- ===== src/Buffer/Insert.antt =====
-- `append` and `insert`, where the room suffices: the bytes that the buffer holds afterwards.
use mach_ports_rs.Prelude.{
  ℕ, ◌+◌, ◌≤◌, ◌≡◌, refl, ◌∙◌, ap, some, List, [], ◌++◌, append_assoc, append-nil, map-append, map,
  length, length-map, length-append, write_at, write_at-append, arith, ok, Returns, Returns-mono,
  Returns-bind, try_into-some, checked_add-some, add_word, access, leb_iff, ◌>>=◌,
}
use mach_ports_rs.Abi.{Platform, IsDarwin}
use mach_ports_rs.Buffer.{Cell, Buffer, move_tail, append, insert}
use mach_ports_rs.Buffer.Holds.{Holds}
use mach_ports_rs.Buffer.Growth.{Served, Makes, IsSmall, make_space-HasRoom}
use mach_ports_rs.Buffer.Move.{IsExtended, write-IsExtended}

move_tail_none : (p : Platform) (mem : List Cell) (len n : ℕ) → move_tail p mem len len n ≡ ok mem
unfolding move_tail
move_tail_none p mem len n = ground arith

-- With nothing behind `pre` the write alone appends.
append-write :
    {p : Platform} (d : IsDarwin p) {b : Buffer} (bs ys : List ℕ)
    → Holds p b bs
    → b.len + length ys ≤ b.capacity
    → Returns
        (λ b'. IsExtended p b (bs ++ ys) 0 b' × (b'.capacity ≡ b.capacity))
        (do
          mem ← access (write_at b.mem b.len (map some ys))
          len ← add_word p.profile 32 b.len (length ys)
          ok (record b { mem = mem; len = len }))
append-write {p} d {b} bs ys h room =
    rw (← h.len_eq, move_tail_none, append-nil) at
      (write-IsExtended d {b = b} bs [] ys appended room)
  where
    appended : Holds p b (bs ++ [])
    appended = rw append-nil h

module _ {p : Platform} (d : IsDarwin p) (served : Served p) where
  -- Inserting bytes behind the first bytes of a buffer returns a buffer that holds the first bytes,
  -- the inserted ones and the rest in this order, within its allocation and under the same header,
  -- when the room is made (the bytes fit already, or reserve is asked for more than the capacity),
  -- the allocator serves every request and no u32 of the growth overflows.
  pub insert-IsExtended :
      {b : Buffer} (pre suf ys : List ℕ)
      → Holds p b (pre ++ suf)
      → Makes b (length ys) (length ys + length pre)
      → IsSmall b (length ys + length pre)
      → Returns
          (IsExtended p b (pre ++ (ys ++ suf)) (length ys + length pre))
          (insert p b (length pre) ys)
  unfolding insert
  insert-IsExtended {b} pre suf ys h makes small =
      rw
        (
          (leb_iff (length pre) b.len).1 (omega (arith, h.len_eq, length-append pre suf)),
          try_into-some 32 (length ys) (omega arith),
          checked_add-some 32 (length ys) (length pre) (omega arith),
        )
        (Returns-bind
          (make_space-HasRoom d served (length ys) (length ys + length pre) h (omega arith) makes
            small)
          (λ b' r.
            Returns-mono
              (write-IsExtended d pre suf ys r.holds
                (omega (arith, r.room, r.holds.len_eq, h.len_eq)))
              (λ b'' e. record {
                holds = e.0.holds;
                header = e.0.header ∙ r.header;
                grown = omega (arith, e.0.grown, r.grown);
                bound = omega (arith, e.1, r.bound);
                kept = rw (e.1) (r.kept);
              })))

  -- Appending bytes returns a buffer that holds them behind the bytes it held, within its
  -- allocation and under the same header, when the room is made, the allocator serves every request
  -- and no u32 of the growth overflows.
  pub append-IsExtended :
      {b : Buffer} (bs ys : List ℕ)
      → Holds p b bs
      → Makes b (length ys) (length ys)
      → IsSmall b (length ys)
      → Returns (IsExtended p b (bs ++ ys) (length ys)) (append p b ys)
  unfolding append
  append-IsExtended {b} bs ys h makes small = rw (try_into-some 32 (length ys) (omega arith)) (
      Returns-bind (make_space-HasRoom d served (length ys) (length ys) h (omega arith) makes small)
        (λ b' r.
          Returns-mono
            (append-write d bs ys r.holds (omega (arith, r.room, r.holds.len_eq, h.len_eq)))
            (λ b'' e. record {
              holds = e.0.holds;
              header = e.0.header ∙ r.header;
              grown = omega (arith, e.0.grown, r.grown);
              bound = omega (arith, e.1, r.bound);
              kept = rw (e.1) (r.kept);
            })))

-- Overwriting the first bytes by as many others.
pub overwrite :
    {p : Platform} {b : Buffer} (xs ys r : List ℕ)
    → Holds p b (xs ++ r)
    → length xs ≡ length ys
    → (mem : List Cell) × (write_at b.mem 0 (map some ys) ≡ some mem)
      × Holds p (record b { mem = mem }) (ys ++ r)
overwrite {p} {b} xs ys r h same = (
  map some ys ++ (map some r ++ h.rest),
  rw mem_eq (
      write_at-append [] (map some xs) (map some ys) (map some r ++ h.rest) 0 refl (
        omega (
          arith,
          length-map {0, 0} {A = ℕ} {B = Cell} some xs,
          length-map {0, 0} {A = ℕ} {B = Cell} some ys,
        ))),
  record {
    rest = h.rest;
    mem_eq = simp (map-append, append_assoc);
    len_eq = omega (arith, h.len_eq, length-append xs r, length-append ys r);
    len_le = h.len_le;
    alloc_eq = omega (
      arith,
      h.alloc_eq,
      ap length mem_eq,
      length-append (map some xs) (map some r ++ h.rest),
      length-append (map some ys) (map some r ++ h.rest),
      length-map {0, 0} {A = ℕ} {B = Cell} some xs,
      length-map {0, 0} {A = ℕ} {B = Cell} some ys,
    );
    cap_lt = h.cap_lt;
  },
)
  where
    mem_eq : b.mem ≡ map some xs ++ (map some r ++ h.rest)
    mem_eq = h.mem_eq ∙ simp (map-append, append_assoc)
