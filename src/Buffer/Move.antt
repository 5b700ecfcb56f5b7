-- ===== src/Buffer/Move.antt =====
-- How the bytes behind a place are moved and others are written in the gap.
use mach_ports_rs.Prelude.{
  ℕ, ◌+◌, ◌-◌, ◌≤◌, ◌<◌, ◌≡◌, ◌⊎◌, inl, inr, refl, sym, ◌∙◌, ap, false, some, List, [], ◌∷◌, ◌++◌,
  append_assoc, map-append, map, length, length-map, length-append, length-drop, read_at-append,
  write_at, insert_cells, arith, ok, Returns, returns, add_word, add_word-ok, access, ltb,
  Bool-cases, ◌>>=◌, drop,
}
use mach_ports_rs.Abi.{Platform, IsDarwin}
use mach_ports_rs.Buffer.{Cell, Buffer, move_tail}
use mach_ports_rs.Buffer.Holds.{Holds, layout_bounds}

-- The outcome of `append` and `insert`.
pub record IsExtended (p : Platform) (b : Buffer) (bs : List ℕ) (needed : ℕ) (b' : Buffer)
    : Type 0 where
  pub holds : Holds p b' bs
  pub header : b'.header ≡ b.header
  pub grown : b.capacity ≤ b'.capacity
  pub bound : b'.capacity ≤ b.capacity + b.capacity + needed
  pub kept : (b'.capacity ≡ b.capacity) ⊎ (b.capacity + b.capacity < b.len + b.len + needed)

-- Writing `ys` at the end of `pre`, in a buffer that holds `pre ++ suf` and has the room.
module _ {p : Platform} (d : IsDarwin p) {b : Buffer} (pre suf ys : List ℕ)
    (h : Holds p b (pre ++ suf)) (room : b.len + length ys ≤ b.capacity) where
  cells : List ℕ → List Cell
  cells = map some

  length-cells : (xs : List ℕ) → length (cells xs) ≡ length xs
  unfolding cells
  length-cells xs = length-map some xs

  room_rest : length ys ≤ length h.rest
  unfolding cells
  room_rest = omega (
    arith,
    h.len_eq,
    h.alloc_eq,
    ap length h.mem_eq,
    length-append (map some (pre ++ suf)) h.rest,
    length-cells (pre ++ suf),
    layout_bounds d b.capacity,
  )

  mem_split : b.mem ≡ cells pre ++ (cells suf ++ h.rest)
  unfolding cells
  mem_split =
      h.mem_eq
      ∙ (ap (λ m. m ++ h.rest) (map-append some pre suf)
          ∙ append_assoc (map some pre) (map some suf) h.rest)

  cells_room : length (cells ys) ≤ length h.rest
  cells_room = omega (arith, room_rest, length-cells ys)

  left : List Cell
  left = drop (length (cells ys)) h.rest

  written : List Cell
  written = cells pre ++ (cells ys ++ (cells suf ++ left))

  plan :
      (mid : List Cell) × (write_at
          (cells pre ++ (cells suf ++ h.rest))
          (length (cells pre) + length (cells ys))
          (cells suf)
        ≡ some mid)
      × (write_at mid (length (cells pre)) (cells ys) ≡ some written)
  unfolding written left
  plan = insert_cells (cells pre) (cells suf) h.rest (cells ys) cells_room

  pre_suf : b.len ≡ length pre + length suf
  pre_suf = omega (arith, h.len_eq, length-append pre suf)

  no_tail :
      (xs : List ℕ) (mid : List Cell)
      → length xs ≡ 0
      → write_at
          (cells pre ++ (cells xs ++ h.rest))
          (length (cells pre) + length (cells ys))
          (cells xs)
        ≡ some mid
      → cells pre ++ (cells xs ++ h.rest) ≡ mid
  unfolding cells
  no_tail [] mid e w = cc
  no_tail (x ∷ xs) mid e w = absurd (omega arith)

  no_suf : ltb 0 (b.len - length pre) ≡ false → length suf ≡ 0
  no_suf e = ground (arith, pre_suf)

  -- The tail is moved up by the length of `ys`, if there is one.
  move_tail-plan : move_tail p b.mem b.len (length pre) (length ys) ≡ ok plan.0
  unfolding move_tail
  move_tail-plan = elim (Bool-cases (ltb 0 (b.len - length pre))) [
    | inl some_left ↦ rw (
      some_left,
      add_word-ok p.profile 32 (length pre) (length ys) (omega (arith, pre_suf, h.cap_lt)),
      mem_split,
      read_at-append (cells pre) (cells suf) h.rest (length pre) (b.len - length pre)
          (sym (length-cells pre)) (omega (arith, length-cells suf, pre_suf)),
      ← length-cells pre,
      ← length-cells ys,
      plan.1,
    )
    | inr none_left ↦
        rw none_left (ap ok (mem_split ∙ no_tail suf plan.0 (no_suf none_left) plan.1))
  ]

  written_eq : written ≡ map some (pre ++ (ys ++ suf)) ++ left
  unfolding written cells
  written_eq = simp (map-append, append_assoc)

  length-written : length written ≡ length b.mem
  unfolding written left
  length-written = omega (
    arith,
    ap length mem_split,
    length-append (cells pre) (cells suf ++ h.rest),
    length-append (cells suf) h.rest,
    length-append (cells pre) (cells ys ++ (cells suf ++ drop (length (cells ys)) h.rest)),
    length-append (cells ys) (cells suf ++ drop (length (cells ys)) h.rest),
    length-append (cells suf) (drop (length (cells ys)) h.rest),
    length-drop (length (cells ys)) h.rest,
    cells_room,
  )

  pub write-IsExtended :
      Returns
        (λ b'. IsExtended p b (pre ++ (ys ++ suf)) 0 b' × (b'.capacity ≡ b.capacity))
        (do
          moved ← move_tail p b.mem b.len (length pre) (length ys)
          mem ← access (write_at moved (length pre) (map some ys))
          len ← add_word p.profile 32 b.len (length ys)
          ok (record b { mem = mem; len = len }))
  unfolding cells written left
  write-IsExtended =
      rw
        (
          move_tail-plan,
          ← length-cells pre,
          plan.2,
          add_word-ok p.profile 32 b.len (length ys) (omega (arith, h.cap_lt)),
        )
        (returns (
          record {
            holds = record {
              rest = left;
              mem_eq = written_eq;
              len_eq = omega (
                arith,
                h.len_eq,
                length-append pre suf,
                length-append pre (ys ++ suf),
                length-append ys suf,
              );
              len_le = room;
              alloc_eq = omega (arith, length-written, h.alloc_eq);
              cap_lt = h.cap_lt;
            };
            header = refl;
            grown = omega arith;
            bound = omega arith;
            kept = inl refl;
          },
          refl,
        ))
