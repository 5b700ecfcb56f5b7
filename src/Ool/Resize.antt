-- ===== src/Ool/Resize.antt =====
-- Resizing an `OolVec`.
use mach_ports_rs.Prelude.{
  ℕ, zero, suc, ◌+◌, ◌-◌, ◌<◌, ◌≤◌, ◌≡◌, refl, sym, ap, ◌∙◌, true, false, inl, inr, Bool-cases,
  some, List, [], ◌∷◌, ◌++◌, map, map-append, append_assoc, append-nil, length, length-append,
  length-take, length-replicate, replicate, take, drop, take-append-drop, ltb, ltb_iff, leb_iff, ok,
  panic, Returns, returns, arith,
}
use mach_ports_rs.Abi.{Platform}
use mach_ports_rs.Buffer.{Cell}
use mach_ports_rs.Ool.{OolVec, Attempt, success, not_enough, capacity, set_len, fill_tail, resize}
use mach_ports_rs.Ool.Holds.{VecHolds, written_at, longer}

abbrev pub Resized : List ℕ → Attempt OolVec → Type 0
Resized bs (success v') = VecHolds v' bs
Resized bs (not_enough e) = ⊥

take_beyond : (n : ℕ) (xs : List ℕ) → length xs ≤ n → take n xs ≡ xs
take_beyond n [] le = take_none n
  where
    take_none : (n : ℕ) → take {0} {A = ℕ} n [] ≡ []
    take_none zero = refl
    take_none (suc n) = refl
take_beyond zero (x ∷ xs) le = absurd (omega arith)
take_beyond (suc n) (x ∷ xs) le = ap (λ r. x ∷ r) (take_beyond n xs (omega arith))

module _ (p : Platform) {v : OolVec} {bs : List ℕ} where
  -- The cells after the tail is filled, where the vector becomes longer and where it does not.
  fill_longer :
      (new_len x : ℕ)
      → VecHolds v bs
      → ltb (length bs) new_len ≡ true
      → new_len ≤ capacity v
      → (mem : List Cell) × (fill_tail p v new_len x ≡ ok mem)
        × VecHolds
            (record v { mem = mem; len = new_len })
            (take new_len bs ++ replicate (new_len - length bs) x)
  unfolding fill_tail
  fill_longer new_len x h grows le = (
    map some (bs ++ fresh) ++ drop (length fresh) h.rest,
    rw (h.len_eq, grows, written_at h fresh fits),
    rw (take_beyond new_len bs (omega (arith, more))) (record {
      rest = drop (length fresh) h.rest;
      mem_eq = refl;
      len_eq = omega (arith, length-append bs fresh, count, more);
      mem_size = (longer h fresh fits).mem_size;
      cap_lt = h.cap_lt;
    }),
  )
    where
      fresh : List ℕ
      fresh = replicate (new_len - length bs) x

      more : length bs < new_len
      more = (ltb_iff (length bs) new_len).0 grows

      count : length fresh ≡ new_len - length bs
      count = length-replicate {0} {A = ℕ} (new_len - length bs) x

      fits : length bs + length fresh ≤ capacity v
      fits = omega (arith, count, more, le)

  fill_shorter :
      (new_len x : ℕ)
      → VecHolds v bs
      → ltb (length bs) new_len ≡ false
      → (mem : List Cell) × (fill_tail p v new_len x ≡ ok mem)
        × VecHolds
            (record v { mem = mem; len = new_len })
            (take new_len bs ++ replicate (new_len - length bs) x)
  unfolding fill_tail
  fill_shorter new_len x h shrinks = (
    v.mem,
    rw (h.len_eq, shrinks),
    rw (none_new, append-nil (take new_len bs))
        (record {
          rest = map some (drop new_len bs) ++ h.rest;
          mem_eq =
              h.mem_eq
              ∙ (ap (λ z. z ++ h.rest) halves
                  ∙ append_assoc (map some (take new_len bs)) (map some (drop new_len bs)) h.rest);
          len_eq = omega (arith, length-take new_len bs, less);
          mem_size = h.mem_size;
          cap_lt = h.cap_lt;
        }),
  )
    where
      less : new_len ≤ length bs
      less = ground arith

      none_more : new_len - length bs ≡ 0
      none_more = omega (arith, less)

      none_new : replicate (new_len - length bs) x ≡ []
      none_new = ap (λ n. replicate n x) none_more

      halves :
          map {A = ℕ} {B = Cell} some bs ≡ map some (take new_len bs) ++ map some (drop new_len bs)
      halves =
          ap (λ z. map some z) (sym (take-append-drop new_len bs))
          ∙ map-append {A = ℕ} {B = Cell} some (take new_len bs) (drop new_len bs)

  fill :
      (new_len x : ℕ)
      → VecHolds v bs
      → new_len ≤ capacity v
      → (mem : List Cell) × (fill_tail p v new_len x ≡ ok mem)
        × VecHolds
            (record v { mem = mem; len = new_len })
            (take new_len bs ++ replicate (new_len - length bs) x)
  fill new_len x h le = elim (Bool-cases (ltb (length bs) new_len)) [
    | inl grows ↦ fill_longer new_len x h grows le
    | inr shrinks ↦ fill_shorter new_len x h shrinks
  ]

  -- Resizing a vector to a length less than its capacity succeeds, and the vector then holds its
  -- first bytes up to the new length and, where that is longer than the old one, copies of the
  -- value behind them.
  pub resize-VecHolds :
      (new_len x : ℕ)
      → VecHolds v bs
      → new_len < capacity v
      → Returns
          (Resized (take new_len bs ++ replicate (new_len - length bs) x))
          (resize p v new_len x)
  unfolding resize set_len
  resize-VecHolds new_len x h lt =
      rw
        (
          (leb_iff new_len (capacity v)).1 (omega arith),
          (fill new_len x h (omega arith)).1,
          (ltb_iff new_len (capacity v)).1 lt,
        )
        (returns (fill new_len x h (omega arith)).2)

  -- Resizing a vector to exactly its capacity panics.
  pub resize_full :
      (new_len x : ℕ) → VecHolds v bs → new_len ≡ capacity v → resize p v new_len x ≡ panic
  unfolding resize set_len
  resize_full new_len x h e =
      rw (
        (leb_iff new_len (capacity v)).1 (omega arith),
        (fill new_len x h (omega arith)).1,
        not_less,
      )
    where
      not_less : ltb new_len (capacity v) ≡ false
      not_less = ground arith
