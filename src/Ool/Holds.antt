-- ===== src/Ool/Holds.antt =====
-- What the operations of `OolVec` do to the bytes that it holds.
use mach_ports_rs.Prelude.{
  ℕ, ◌+◌, ◌^◌, ◌<◌, ◌≤◌, ◌≡◌, refl, sym, ap, ◌∙◌, some, List, [], ◌++◌, map, map-append,
  append_assoc, length, length-append, length-map, length-take, length-drop, take, drop,
  take-append-drop, read_at-append, write_at, write_at-append, ok, arith,
}
use mach_ports_rs.Buffer.{Cell}
use mach_ports_rs.Ool.{OolVec, capacity, as_slice}

-- The vector holds these bytes.
pub record VecHolds (v : OolVec) (bs : List ℕ) : Type 0 where
  pub rest : List Cell
  pub mem_eq : v.mem ≡ map some bs ++ rest
  pub len_eq : v.len ≡ length bs
  pub mem_size : length v.mem ≡ capacity v
  pub cap_lt : capacity v < 2 ^ 63

-- Bytes written over the first cells of the rest.
write_behind :
    (bs ys : List ℕ) (rest : List Cell)
    → length ys ≤ length rest
    → write_at (map some bs ++ rest) (length bs) (map some ys)
      ≡ some (map some (bs ++ ys) ++ drop (length ys) rest)
write_behind bs ys rest le =
    ap (λ r. write_at (map some bs ++ r) (length bs) (map some ys))
      (sym (take-append-drop (length ys) rest))
    ∙ write_at-append (map some bs) (take (length ys) rest) (map some ys) (drop (length ys) rest)
        (length bs) (sym (length-map {0, 0} {A = ℕ} {B = Cell} some bs))
        (omega
          (arith, length-take (length ys) rest, length-map {0, 0} {A = ℕ} {B = Cell} some ys, le))
    ∙ ap some (
        sym (append_assoc (map some bs) (map some ys) (drop (length ys) rest))
        ∙ ap (λ z. z ++ drop (length ys) rest) (sym (map-append {A = ℕ} {B = Cell} some bs ys)))

module _ {v : OolVec} {bs : List ℕ} (h : VecHolds v bs) where
  pub rest_size : capacity v ≡ length bs + length h.rest
  rest_size = omega (
    arith,
    h.mem_size,
    ap length h.mem_eq,
    length-append (map {A = ℕ} {B = Cell} some bs) h.rest,
    length-map {0, 0} {A = ℕ} {B = Cell} some bs,
  )

  pub slice_read : as_slice v ≡ ok (map some bs)
  unfolding as_slice
  slice_read = rw (
    h.mem_eq,
    read_at-append [] (map some bs) h.rest 0 v.len refl
        (omega (arith, h.len_eq, length-map {0, 0} {A = ℕ} {B = Cell} some bs)),
  )

  pub written :
      (ys : List ℕ)
      → length bs + length ys ≤ capacity v
      → write_at v.mem v.len (map some ys) ≡ some (map some (bs ++ ys) ++ drop (length ys) h.rest)
  written ys le = rw (h.mem_eq, h.len_eq) (write_behind bs ys h.rest (omega (arith, rest_size, le)))

  pub written_at :
      (ys : List ℕ)
      → length bs + length ys ≤ capacity v
      → write_at v.mem (length bs) (map some ys)
        ≡ some (map some (bs ++ ys) ++ drop (length ys) h.rest)
  written_at ys le = rw h.mem_eq (write_behind bs ys h.rest (omega (arith, rest_size, le)))

  abbrev pub longer :
      (ys : List ℕ)
      → length bs + length ys ≤ capacity v
      → VecHolds
          (record v {
            mem = map some (bs ++ ys) ++ drop (length ys) h.rest;
            len = length bs + length ys;
          })
          (bs ++ ys)
  longer ys le = record {
    rest = drop (length ys) h.rest;
    mem_eq = refl;
    len_eq = omega (arith, length-append bs ys);
    mem_size = omega (
      arith,
      length-append (map {A = ℕ} {B = Cell} some (bs ++ ys)) (drop (length ys) h.rest),
      length-map {0, 0} {A = ℕ} {B = Cell} some (bs ++ ys),
      length-append bs ys,
      length-drop (length ys) h.rest,
      rest_size,
      le,
    );
    cap_lt = h.cap_lt;
  }
