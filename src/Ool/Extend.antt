-- ===== src/Ool/Extend.antt =====
-- Extending an `OolVec`, and taking bytes from its end.
use mach_ports_rs.Prelude.{
  ℕ, ◌+◌, ◌-◌, ◌<◌, ◌≤◌, ◌≡◌, refl, ap, ◌∙◌, true, inl, inr, Bool-cases, some, List, [], ◌∷◌, ◌++◌,
  map, map-append, append_assoc, length, length-append, leb, ◌>>=◌, Returns, returns, Returns-bind,
  add_word-ok, sub_word-ok, arith,
}
use mach_ports_rs.Abi.{Platform}
use mach_ports_rs.Buffer.{Cell}
use mach_ports_rs.Ool.{
  OolVec, Attempt, success, not_enough, capacity, last, try_extend_from_slice, popped, pop, push,
  try_push, unwrap_attempt,
}
use mach_ports_rs.Ool.Holds.{VecHolds, rest_size, slice_read, written, longer}

-- What an extension comes to: the bytes behind the others, or an error if they do not fit.
abbrev pub Extends : OolVec → (bs ys : List ℕ) → Attempt OolVec → Type 0
Extends v bs ys (success v') =
    (length bs + length ys ≤ capacity v) × VecHolds v' (bs ++ ys) × (v'.buf ≡ v.buf)
Extends v bs ys (not_enough e) =
    (capacity v < length bs + length ys)
    × (e ≡ record { required_capacity = length ys; available_capacity = capacity v - length bs })

last-snoc : (bs : List ℕ) (x : ℕ) → last (map some (bs ++ (x ∷ []))) ≡ some (some x)
last-snoc [] x = refl
last-snoc (y ∷ []) x = refl
last-snoc (y ∷ z ∷ bs) x = last-snoc (z ∷ bs) x

pushed :
    (v : OolVec) (bs : List ℕ) (x : ℕ)
    → length bs < capacity v
    → (a : Attempt OolVec) → Extends v bs (x ∷ []) a
    → Returns (λ v'. VecHolds v' (bs ++ (x ∷ []))) (unwrap_attempt a)
pushed v bs x lt (success v') e = returns e.1
pushed v bs x lt (not_enough e) short = absurd (omega (arith, short.0))

module _ (p : Platform) {v : OolVec} {bs : List ℕ} where
  -- Extending a vector by bytes never panics: it returns a vector over the same pages with the
  -- bytes behind those it held when all of them fit the capacity, and otherwise NotEnoughCapacity
  -- with the number of the bytes and the room that is left.
  pub try_extend-Extends :
      (ys : List ℕ) → VecHolds v bs → Returns (Extends v bs ys) (try_extend_from_slice p v ys)
  unfolding try_extend_from_slice
  try_extend-Extends ys h =
      rw (sub_word-ok p.profile 64 (capacity v) v.len (omega (arith, h.len_eq, rest_size h)))
        (elim (Bool-cases (leb (length ys) (capacity v - v.len))) [
          | inl fits ↦
              rw
                (
                  fits,
                  written h ys (room fits),
                  add_word-ok p.profile 64 v.len (length ys)
                      (omega (arith, h.len_eq, h.cap_lt, room fits)),
                  h.len_eq,
                )
                (returns (room fits, longer h ys (room fits), refl))
          | inr short ↦ rw (short, h.len_eq) (returns (ground (arith, h.len_eq, short), refl))
        ])
    where
      room : leb (length ys) (capacity v - v.len) ≡ true → length bs + length ys ≤ capacity v
      room e = ground (arith, h.len_eq, rest_size h)

  pub pop-VecHolds :
      (x : ℕ)
      → VecHolds v (bs ++ (x ∷ []))
      → Returns (λ q. (q.0 ≡ some x) × VecHolds q.1 bs) (pop p v)
  unfolding pop popped
  pop-VecHolds x h =
      rw (slice_read h, last-snoc bs x, sub_word-ok p.profile 64 v.len 1 (omega (arith, size)))
        (returns (
          refl,
          record {
            rest = some x ∷ h.rest;
            mem_eq =
                h.mem_eq
                ∙ (ap (λ z. z ++ h.rest) (map-append {A = ℕ} {B = Cell} some bs (x ∷ []))
                    ∙ append_assoc (map some bs) (some x ∷ []) h.rest);
            len_eq = omega (arith, size);
            mem_size = h.mem_size;
            cap_lt = h.cap_lt;
          },
        ))
    where
      size : v.len ≡ length bs + 1
      size = omega (arith, h.len_eq, length-append bs (x ∷ []))

  push-VecHolds :
      (x : ℕ)
      → VecHolds v bs
      → length bs < capacity v
      → Returns (λ v'. VecHolds v' (bs ++ (x ∷ []))) (push p v x)
  unfolding push try_push
  push-VecHolds x h lt = Returns-bind (try_extend-Extends (x ∷ []) h) (pushed v bs x lt)

-- A byte that is pushed to a vector with room for it is the byte that pop then gives, and the
-- vector holds the bytes that it held before.
pub push-pop :
    (p : Platform) {v : OolVec} {bs : List ℕ} (x : ℕ)
    → VecHolds v bs
    → length bs < capacity v
    → Returns (λ q. (q.0 ≡ some x) × VecHolds q.1 bs) (push p v x >>= pop p)
push-pop p x h lt = Returns-bind (push-VecHolds p x h lt) (λ v' h'. pop-VecHolds p x h')
