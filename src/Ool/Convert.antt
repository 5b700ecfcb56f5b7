-- ===== src/Ool/Convert.antt =====
-- Vectors from slices, and vectors turned into buffers of out-of-line data and back.
use mach_ports_rs.Prelude.{
  ltb_iff, zero, suc, Outcome, ◌⊎◌, ℕ, ◌+◌, ◌-◌, ◌%◌, ◌^◌, ◌<◌, ◌≤◌, ◌≡◌, ◌≢◌, refl, sym, ap, ◌∙◌,
  true, false, inl, inr, Bool-cases, none, some, List, [], ◌∷◌, ◌++◌, map, append-nil, length,
  length-map, length-replicate, replicate, take, read_at, read_at-append, ltb, leb_iff, ◌==◌,
  ==_iff, if◌then◌else◌, ok, access, Returns, returns, Returns-bind, Returns-mono, arith,
}
use mach_ports_rs.Abi.{Platform}
use mach_ports_rs.Kernel.{Kernel, Returns-lift}
use mach_ports_rs.Buffer.{Cell}
use mach_ports_rs.Vm
use mach_ports_rs.Vm.{VmBuf, is_power_of_two}
use mach_ports_rs.Vm.Pages.{IsBoundary, cut}
use mach_ports_rs.Vm.Shrink.{shrink_to-cut}
use mach_ports_rs.Ool.{
  OolVec, Attempt, success, not_enough, capacity, extend_from_slice, unwrap_attempt,
}
use mach_ports_rs.Ool.Holds.{VecHolds, rest_size}
use mach_ports_rs.Ool.Extend.{Extends, try_extend-Extends}
use mach_ports_rs.Ool.Owned.{
  OolBuf, unmapped, mapping, with_memory, contents, into_vec, shrink_to_fit, into_buf,
  with_capacity, from_slice,
}

-- A kernel that gives back what it is asked to.
abbrev pub GivesBack : {S : Type 0} → Platform → Kernel S → Type 0
GivesBack {S} p k =
    (address size : ℕ) (s : S) → (k.mach_vm_deallocate address size s).0 ≡ p.kern_success

-- A kernel that serves every request for pages.
abbrev pub Allocates : {S : Type 0} → Platform → Kernel S → Type 0
Allocates {S} p k =
    (size flags : ℕ) (s : S)
    → ((k.mach_vm_allocate size flags s).0 ≡ p.kern_success)
      × ((k.mach_vm_allocate size flags s).1 ≢ 0)

take_front-unmapped :
    (n a : ℕ) (mem gone : List Cell)
    → n ≤ a
    → n ≤ length mem
    → take n (take a mem ++ gone) ≡ take n mem
take_front-unmapped zero a mem gone le fits = refl
take_front-unmapped (suc n) zero mem gone le fits = absurd (omega arith)
take_front-unmapped (suc n) (suc a) [] gone le fits = absurd (omega arith)
take_front-unmapped (suc n) (suc a) (c ∷ mem) gone le fits =
    ap (λ r. c ∷ r) (take_front-unmapped n a mem gone (omega arith) (omega arith))

kept :
    (page ptr a size n : ℕ) (mem : List Cell)
    → (ptr + a) % page ≡ 0
    → n ≤ a
    → n ≤ length mem
    → take n (unmapped page ptr mem (ptr + a) size) ≡ take n mem
unfolding unmapped
kept page ptr a size n mem on_page le fits =
    take_front-unmapped n (ptr + a - (ptr + a) % page - ptr) mem _ (omega (arith, on_page)) fits

-- Cutting a region leaves the bytes before the target where they are.
record LeavesFront {S : Type 0} (b : VmBuf) (target a : ℕ) (mem : List Cell)
    (o : Outcome (VmBuf × (S × List Cell))) : Type 0 where
  ptr : ℕ
  state : S
  left : List Cell
  runs : o ≡ ok (Vm.from_raw_parts ptr target, (state, left))
  front : take target left ≡ take target mem
  place : (ptr ≡ b.ptr) ⊎ (a ≡ 0)

cut-LeavesFront :
    {S : Type 0} (p : Platform) (k : Kernel S) (b : VmBuf) (target a : ℕ) (mem : List Cell) (s : S)
    → GivesBack p k
    → (b.ptr + a) % p.page_size ≡ 0
    → target ≤ a
    → target ≤ length mem
    → LeavesFront b target a mem (cut p (mapping p k b.ptr) b target a (s, mem))
cut-LeavesFront p k b target a mem s frees on_page le fits = elim (Bool-cases (ltb a b.capacity)) [
  | inl within ↦ record {
    ptr = if a == 0 then Vm.dangling else b.ptr;
    state = (k.mach_vm_deallocate (b.ptr + a) (b.capacity - a) s).1;
    left = unmapped p.page_size b.ptr mem (b.ptr + a) (b.capacity - a);
    runs = rw (
      within,
      (==_iff (k.mach_vm_deallocate (b.ptr + a) (b.capacity - a) s).0 p.kern_success).1
          (frees (b.ptr + a) (b.capacity - a) s),
    );
    front = kept p.page_size b.ptr a (b.capacity - a) target mem on_page le fits;
    place = elim (Bool-cases (a == 0)) [
      | inl nothing ↦ inr ((==_iff a 0).0 nothing)
      | inr some_left ↦ inl (rw some_left refl)
    ];
  }
  | inr beyond ↦ record {
    ptr = b.ptr;
    state = s;
    left = mem;
    runs = rw beyond;
    front = refl;
    place = inl refl;
  }
]

-- The buffer has exactly these bytes, and is a vector of them.
pub record BufHolds (b : OolBuf) (bs : List ℕ) : Type 0 where
  pub slice : contents b ≡ ok (map some bs)
  pub exact : b.buf.capacity ≡ length bs
  pub as_vec : VecHolds (into_vec b) bs

take_front : (bs : List ℕ) (rest : List Cell) → take (length bs) (map some bs ++ rest) ≡ map some bs
take_front [] rest = refl
take_front (x ∷ bs) rest = ap (λ r. some x ∷ r) (take_front bs rest)

fitting :
    (b : OolBuf) (bs : List ℕ)
    → b.buf.capacity ≡ length bs
    → b.mem ≡ map some bs
    → length bs < 2 ^ 63
    → BufHolds b bs
fitting b bs size bytes lt = record {
  slice = rw (size, bytes) (read_all bs);
  exact = size;
  as_vec = record {
    rest = [];
    mem_eq = bytes ∙ sym (append-nil (map some bs));
    len_eq = size;
    mem_size = ap length bytes ∙ length-map {0, 0} {A = ℕ} {B = Cell} some bs ∙ sym size;
    cap_lt = omega (arith, size, lt);
  };
}
  where
    read_all :
        (bs : List ℕ)
        → access (read_at (map {A = ℕ} {B = Cell} some bs) 0 (length bs)) ≡ ok (map some bs)
    read_all bs =
        ap (λ z. access (read_at z 0 (length bs))) (sym (append-nil (map some bs)))
        ∙ ap access (
            read_at-append [] (map some bs) [] 0 (length bs) refl
              (sym (length-map {0, 0} {A = ℕ} {B = Cell} some bs)))

extended :
    (v : OolVec) (bs ys : List ℕ)
    → length bs + length ys ≤ capacity v
    → (a : Attempt OolVec) → Extends v bs ys a
    → Returns (λ v'. VecHolds v' (bs ++ ys)) (unwrap_attempt a)
extended v bs ys le (success v') e = returns e.1
extended v bs ys le (not_enough e) short = absurd (omega (arith, short.0))

module _ {S : Type 0} (p : Platform) (k : Kernel S) where
  -- Turning a vector into an OolBuf, with a kernel that gives back what it is asked to, pages of a
  -- power of two and a region that ends more than a page below 2 ^ 64, gives a buffer at the same
  -- place (or of no bytes) that holds exactly the bytes of the vector in the memory that is left
  -- mapped, and the OolVec made of that buffer holds them too.
  pub into_buf-BufHolds :
      (v : OolVec) (bs : List ℕ) (s : S)
      → GivesBack p k
      → is_power_of_two p.page_size ≡ true
      → VecHolds v bs
      → v.buf.ptr + capacity v + p.page_size < 2 ^ 64
      → Returns (λ q. BufHolds q.0 bs × ((q.0.buf.ptr ≡ v.buf.ptr) ⊎ (bs ≡ []))) (into_buf p k v s)
  unfolding into_buf shrink_to_fit Vm.drop Vm.dealloc_impl
  into_buf-BufHolds v bs s frees pow h fits =
      rw (cutting.2, after_cut.runs)
        (returns (
          fitting _ bs h.len_eq
              (after_cut.front
                ∙ ap (λ n. take n v.mem) h.len_eq
                ∙ ap (take (length bs)) h.mem_eq
                ∙ take_front bs h.rest)
              (omega (arith, rest_size h, h.cap_lt)),
          placed after_cut.place,
        ))
    where
      cutting :
          (a : ℕ) × IsBoundary p.page_size v.buf.ptr v.len a
          × (Vm.shrink_to p (mapping p k v.buf.ptr) v.buf v.len (s, v.mem)
              ≡ cut p (mapping p k v.buf.ptr) v.buf v.len a (s, v.mem))
      cutting =
          shrink_to-cut p (mapping p k v.buf.ptr) v.buf v.len (s, v.mem) pow
            (omega (arith, h.len_eq, rest_size h)) fits

      after_cut :
          LeavesFront v.buf v.len cutting.0 v.mem
            (cut p (mapping p k v.buf.ptr) v.buf v.len cutting.0 (s, v.mem))
      after_cut =
          cut-LeavesFront p k v.buf v.len cutting.0 v.mem s frees cutting.1.on_page cutting.1.keeps
            (omega (arith, h.len_eq, rest_size h, h.mem_size))

      no_bytes : (xs : List ℕ) → length xs ≡ 0 → xs ≡ []
      no_bytes [] e = refl
      no_bytes (x ∷ xs) e = absurd (omega arith)

      placed : {ptr : ℕ} → (ptr ≡ v.buf.ptr) ⊎ (cutting.0 ≡ 0) → (ptr ≡ v.buf.ptr) ⊎ (bs ≡ [])
      placed (inl same) = inl same
      placed (inr nothing) = inr (no_bytes bs (omega (arith, nothing, cutting.1.keeps, h.len_eq)))

  alloc-runs :
      (n : ℕ) (s : S)
      → Allocates p k
      → n < 2 ^ 63
      → (buf : VmBuf) × (s' : S) × (with_memory (Vm.alloc p (mapping p k 0) n) [] s
          ≡ ok ((buf, replicate n none), s'))
        × (buf.capacity ≡ n)
  unfolding Vm.alloc
  alloc-runs zero s serves lt = (Vm.from_raw_parts Vm.dangling 0, s, refl, refl)
  alloc-runs (suc m) s serves lt = (
    Vm.from_raw_parts (k.mach_vm_allocate (suc m) p.vm_flags s).1 (suc m),
    (k.mach_vm_allocate (suc m) p.vm_flags s).2,
    rw (
      (ltb_iff 0 (suc m)).1 (omega arith),
      (leb_iff (suc m) (2 ^ 63 - 1)).1 (omega arith),
      (==_iff (k.mach_vm_allocate (suc m) p.vm_flags s).0 p.kern_success).1
          (serves (suc m) p.vm_flags s).0,
      not_null (k.mach_vm_allocate (suc m) p.vm_flags s).1 (serves (suc m) p.vm_flags s).1,
    ),
    refl,
  )
    where
      not_null : (a : ℕ) → a ≢ 0 → (a == 0) ≡ false
      not_null a h = ground arith

  -- A vector made from a slice of less than 2 ^ 63 bytes holds the bytes of the slice, in memory of
  -- as many bytes as the kernel was asked for, with a kernel that serves every request for pages.
  pub from_slice-VecHolds :
      (bs : List ℕ) (s : S)
      → Allocates p k
      → length bs < 2 ^ 63
      → Returns (λ q. VecHolds q.0 bs) (from_slice p k bs s)
  unfolding from_slice with_capacity extend_from_slice
  from_slice-VecHolds bs s serves lt = rw pages.2 (
      Returns-mono
        (Returns-lift pages.1 (
          Returns-bind (try_extend-Extends p bs empty_vec) (
            extended (record { buf = pages.0; mem = replicate (length bs) none; len = 0 }) [] bs
              (omega (arith, pages.3)))))
        (λ q h. h.0))
    where
      pages :
          (buf : VmBuf) × (s' : S) × (with_memory (Vm.alloc p (mapping p k 0) (length bs)) [] s
            ≡ ok ((buf, replicate (length bs) none), s'))
          × (buf.capacity ≡ length bs)
      pages = alloc-runs (length bs) s serves lt

      empty_vec : VecHolds (record { buf = pages.0; mem = replicate (length bs) none; len = 0 }) []
      empty_vec = record {
        rest = replicate (length bs) none;
        mem_eq = refl;
        len_eq = refl;
        mem_size = length-replicate {0} {A = Cell} (length bs) none ∙ sym pages.3;
        cap_lt = omega (arith, pages.3, lt);
      }
