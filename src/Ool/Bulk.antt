-- ===== src/Ool/Bulk.antt =====
-- Bytes that are pushed one after the other, against the same bytes copied at once.
use mach_ports_rs.Prelude.{
  zero, suc, ℕ, zero, suc, ◌+◌, ◌-◌, ◌^◌, ◌<◌, ◌≤◌, ◌≡◌, inl, inr, length-replicate, replicate,
  none, refl, sym, ap, ◌∙◌, Bool-cases, true, false, some, List, [], ◌∷◌, ◌++◌, map, append-nil,
  append_assoc, length, length-append, drop, leb, leb_iff, Outcome, ok, panic, undefined,
  add_word-ok, sub_word-ok, if◌then◌else◌, arith,
}
use mach_ports_rs.Abi.{Platform}
use mach_ports_rs.Kernel
use mach_ports_rs.Kernel.{Kernel, after, lift}
use mach_ports_rs.Buffer.{Cell}
use mach_ports_rs.Vm
use mach_ports_rs.Vm.{VmBuf}
use mach_ports_rs.Ool.{
  OolVec, capacity, try_extend_from_slice, extend_from_slice, push, try_push, extend,
}
use mach_ports_rs.Ool.Owned.{mapping, with_memory, ool_vec, from_slice, with_capacity, ool_vec_with}
use mach_ports_rs.Ool.Holds.{VecHolds, rest_size, written_at, longer}

-- The vector with the bytes behind its own.
abbrev filled : {v : OolVec} {bs : List ℕ} → VecHolds v bs → List ℕ → OolVec
filled {v} {bs} h ys = record v {
  mem = map some (bs ++ ys) ++ drop (length ys) h.rest;
  len = length bs + length ys;
}

drop-suc : {A : Type 0} (n : ℕ) (xs : List A) → drop n (drop 1 xs) ≡ drop (suc n) xs
drop-suc zero [] = refl
drop-suc (suc n) [] = refl
drop-suc n (x ∷ xs) = refl

module _ (p : Platform) where
  -- The bytes are there at once, or the call panics.
  extend_from_slice-filled :
      {v : OolVec} {bs : List ℕ} (h : VecHolds v bs) (ys : List ℕ)
      → extend_from_slice p v ys
        ≡ (if leb (length bs + length ys) (capacity v) then ok (filled h ys) else panic)
  unfolding extend_from_slice try_extend_from_slice
  extend_from_slice-filled {v} {bs} h ys =
      rw
        (
          sub_word-ok p.profile 64 (capacity v) v.len (omega (arith, h.len_eq, rest_size h)),
          h.len_eq,
        )
        (elim (Bool-cases (leb (length ys) (capacity v - length bs))) [
          | inl fits ↦
              rw
                (
                  fits,
                  written_at h ys (room fits),
                  add_word-ok p.profile 64 (length bs) (length ys)
                      (omega (arith, h.cap_lt, room fits)),
                  (leb_iff (length bs + length ys) (capacity v)).1 (room fits),
                )
                refl
          | inr short ↦ rw short (ground (arith, short, rest_size h))
        ])
    where
      room : leb (length ys) (capacity v - length bs) ≡ true → length bs + length ys ≤ capacity v
      room e = ground (arith, rest_size h)

  push-filled :
      {v : OolVec} {bs : List ℕ} (h : VecHolds v bs) (x : ℕ)
      → push p v x ≡ (if leb (length bs + 1) (capacity v) then ok (filled h (x ∷ [])) else panic)
  unfolding push try_push extend_from_slice
  push-filled h x = unfold extend_from_slice in extend_from_slice-filled h (x ∷ [])

  filled-nil : {v : OolVec} {bs : List ℕ} (h : VecHolds v bs) → filled h [] ≡ v
  filled-nil {v} {bs} h =
      ap (λ m. record v { mem = m; len = length bs + 0 })
        (ap (λ z. map some z ++ h.rest) (append-nil bs) ∙ sym h.mem_eq)
      ∙ ap (λ n. record v { len = n }) (omega (arith, h.len_eq))

  filled-cons :
      {v : OolVec} {bs : List ℕ} (h : VecHolds v bs) (x : ℕ) (xs : List ℕ)
      (le : length bs + 1 ≤ capacity v)
      → filled (longer h (x ∷ []) le) xs ≡ filled h (x ∷ xs)
  filled-cons {v} {bs} h x xs le =
      ap (λ m. record v { mem = m; len = length (bs ++ (x ∷ [])) + length xs })
        (ap (λ z. map some z ++ drop (length xs) (drop 1 h.rest)) (append_assoc bs (x ∷ []) xs)
          ∙ ap (λ r. map some (bs ++ (x ∷ xs)) ++ r) (drop-suc (length xs) h.rest))
      ∙ ap
          (λ n. record v {
            mem = map some (bs ++ (x ∷ xs)) ++ drop (length (x ∷ xs)) h.rest;
            len = n;
          })
          (omega (arith, length-append bs (x ∷ [])))

  -- Pushing the bytes one after the other comes to the same.
  extend-filled :
      (ys : List ℕ) {v : OolVec} {bs : List ℕ} (h : VecHolds v bs)
      → extend p v ys
        ≡ (if leb (length bs + length ys) (capacity v) then ok (filled h ys) else panic)
  unfolding extend
  extend-filled [] {v} {bs} h =
      rw ((leb_iff (length bs + 0) (capacity v)).1 (omega (arith, rest_size h)), filled-nil h)
  extend-filled (x ∷ xs) {v} {bs} h =
      rw (push-filled h x) (elim (Bool-cases (leb (length bs + 1) (capacity v))) [
        | inl one ↦ rw one (
            next ((leb_iff (length bs + 1) (capacity v)).0 one)
              (extend-filled xs (longer h (x ∷ []) ((leb_iff (length bs + 1) (capacity v)).0 one))))
        | inr short ↦ rw (short, over short)
      ])
    where
      over :
          leb (length bs + 1) (capacity v) ≡ false
          → leb (length bs + length (x ∷ xs)) (capacity v) ≡ false
      over e = ground arith

      next :
          (le : length bs + 1 ≤ capacity v)
          → extend p (filled h (x ∷ [])) xs ≡ (
              if leb (length (bs ++ (x ∷ [])) + length xs) (capacity v)
              then ok (filled (longer h (x ∷ []) le) xs)
              else panic)
          → extend p (filled h (x ∷ [])) xs ≡ (
              if leb (length bs + length (x ∷ xs)) (capacity v)
              then ok (filled h (x ∷ xs))
              else panic)
      next le pushed =
          pushed
          ∙ ap (λ w. if leb (length (bs ++ (x ∷ [])) + length xs) (capacity v) then ok w else panic)
              (filled-cons h x xs le)
          ∙ ap (λ n. if leb n (capacity v) then ok (filled h (x ∷ xs)) else panic)
              (omega (arith, length-append bs (x ∷ [])))

  pub extend-extend_from_slice :
      {v : OolVec} {bs : List ℕ}
      → VecHolds v bs
      → (ys : List ℕ) → extend p v ys ≡ extend_from_slice p v ys
  extend-extend_from_slice h ys = extend-filled ys h ∙ sym (extend_from_slice-filled h ys)

module _ {S : Type 0} (p : Platform) (k : Kernel S) where
  after_both :
      {A : Type 0} (o : Outcome (A × S)) (make : A → OolVec) (f g : OolVec → Outcome OolVec)
      → ((a : A) (s : S) → o ≡ ok (a, s) → f (make a) ≡ g (make a))
      → after (after o (λ a. Kernel.pure (make a))) (λ v. lift (f v))
        ≡ after (after o (λ a. Kernel.pure (make a))) (λ v. lift (g v))
  after_both (ok (a, s)) make f g same = ap (λ r. lift r s) (same a s refl)
  after_both panic make f g same = refl
  after_both undefined make f g same = refl

  alloc-capacity :
      (n : ℕ) (s s' : S) (buf : VmBuf) (mem : List Cell)
      → with_memory (Vm.alloc p (mapping p k 0) n) [] s ≡ ok ((buf, mem), s')
      → (buf.capacity ≡ n) × (n < 2 ^ 63) × (mem ≡ replicate n none)
  unfolding Vm.alloc
  alloc-capacity zero s s' buf mem e = ground (arith, e)
  alloc-capacity (suc n) s s' buf mem e = ground (arith, e)

  -- For any bytes and any kernel, ool_vec!, which allocates for the number of its values and pushes
  -- them one after the other, is the same computation as the conversion from a slice of these
  -- bytes, which copies them at once: the same vector, state and kernel calls, or the same panic.
  pub ool_vec-from_slice : (bs : List ℕ) (s : S) → ool_vec p k bs s ≡ from_slice p k bs s
  unfolding ool_vec ool_vec_with from_slice with_capacity
  ool_vec-from_slice bs s =
      after_both (with_memory (Vm.alloc p (mapping p k 0) (length bs)) [] s)
        (λ (buf, mem). record { buf = buf; mem = mem; len = 0 }) (λ v. extend p v bs)
        (λ v. extend_from_slice p v bs)
        (λ (buf, mem) s' e.
          extend-extend_from_slice p (empty_vec buf mem (alloc-capacity (length bs) s s' buf mem e))
            bs)
    where
      empty_vec :
          (buf : VmBuf) (mem : List Cell)
          → (buf.capacity ≡ length bs) × (length bs < 2 ^ 63) × (mem ≡ replicate (length bs) none)
          → VecHolds (record { buf = buf; mem = mem; len = 0 }) []
      empty_vec buf mem (size, lt, unwritten) = record {
        rest = mem;
        mem_eq = refl;
        len_eq = refl;
        mem_size =
            ap length unwritten ∙ length-replicate {0} {A = Cell} (length bs) none ∙ sym size;
        cap_lt = omega (arith, size, lt);
      }
