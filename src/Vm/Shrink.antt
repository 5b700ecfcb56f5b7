-- ===== src/Vm/Shrink.antt =====
-- What `VmBuf::shrink_to` gives back: the pages behind the first boundary from the target on.
use mach_ports_rs.Prelude.{
  ℕ, zero, suc, ◌+◌, ◌-◌, ◌*◌, ◌/◌, ◌%◌, ◌^◌, ◌<◌, ◌≤◌, ◌≡◌, true, false, inl, inr, Bool-cases, ltb,
  ltb_iff, leb_iff, ok, add_word-ok, sub_word-ok, arith,
}
use native.Mathlib.Nat.{div-add-mod, mod-le, mul-suc, mul-le-mul_left, lt_of_mul-lt-mul_left}
use mach_ports_rs.Abi.{Platform}
use mach_ports_rs.Kernel.{Kernel, ◌>>=◌}
use mach_ports_rs.Vm.{VmBuf, is_power_of_two, shrink_to, dealloc_impl, drop}
use mach_ports_rs.Vm.Pages.{align_up-ok, IsBoundary, cut, up_to, up_to-IsBoundary, cut_iff}

power-pos : (n : ℕ) → is_power_of_two n ≡ true → 0 < n
power-pos zero e = ground arith
power-pos (suc n) e = omega arith

module _ {S : Type 0} (p : Platform) (k : Kernel S) where
  -- Shrinking a region to a target within it, with pages of a power of two and a region that ends
  -- more than a page below 2 ^ 64, gives back exactly the bytes from the first page boundary at or
  -- behind the target to the end of the region, in one call, or makes no call when there are none;
  -- the region keeps its begin unless nothing is left of it.
  pub shrink_to-cut :
      (b : VmBuf) (target : ℕ) (s : S)
      → is_power_of_two p.page_size ≡ true
      → target ≤ b.capacity
      → b.ptr + b.capacity + p.page_size < 2 ^ 64
      → (a : ℕ) × IsBoundary p.page_size b.ptr target a
        × (shrink_to p k b target s ≡ cut p k b target a s)
  unfolding shrink_to
  shrink_to-cut b target s pow le fits =
      (up_to p.page_size b.ptr target, up_to-IsBoundary p.page_size b.ptr target pos, run)
    where
      pos : 0 < p.page_size
      pos = power-pos p.page_size pow

      offset_le : b.ptr % p.page_size ≤ b.ptr
      offset_le = mod-le b.ptr p.page_size

      there : IsBoundary p.page_size b.ptr target (up_to p.page_size b.ptr target)
      there = up_to-IsBoundary p.page_size b.ptr target pos

      run : shrink_to p k b target s ≡ cut p k b target (up_to p.page_size b.ptr target) s
      run =
          rw
            (
              (leb_iff target b.capacity).1 le,
              pow,
              add_word-ok p.profile 64 b.capacity (b.ptr % p.page_size)
                  (omega (arith, offset_le, fits)),
              align_up-ok p.profile (b.capacity + b.ptr % p.page_size) p.page_size pos
                  (omega (arith, offset_le, fits)),
              sub_word-ok p.profile 64
                  (b.capacity
                    + b.ptr % p.page_size
                    + (p.page_size - (b.capacity + b.ptr % p.page_size) % p.page_size)
                      % p.page_size)
                  (b.ptr % p.page_size) (omega arith),
              add_word-ok p.profile 64 target (b.ptr % p.page_size)
                  (omega (arith, offset_le, fits, le)),
              align_up-ok p.profile (target + b.ptr % p.page_size) p.page_size pos
                  (omega (arith, offset_le, fits, le)),
              sub_word-ok p.profile 64
                  (target
                    + b.ptr % p.page_size
                    + (p.page_size - (target + b.ptr % p.page_size) % p.page_size) % p.page_size)
                  (b.ptr % p.page_size) (omega arith),
              cut_iff p.page_size b.ptr target b.capacity pos le,
            )
            (elim (Bool-cases (ltb (up_to p.page_size b.ptr target) b.capacity)) [
              | inl within ↦ rw (
                within,
                sub_word-ok p.profile 64 b.capacity (up_to p.page_size b.ptr target)
                    (omega (arith, (ltb_iff (up_to p.page_size b.ptr target) b.capacity).0 within)),
                add_word-ok p.profile 64 b.ptr (up_to p.page_size b.ptr target) (
                    omega (
                      arith,
                      (ltb_iff (up_to p.page_size b.ptr target) b.capacity).0 within,
                      fits,
                    )),
              )
              | inr beyond ↦ rw beyond
            ])

  -- A region that lies within one page but does not begin on its boundary is never given back once
  -- it is shrunk to nothing: neither the shrinking nor the drop that follows makes a kernel call.
  pub shrink_to-leaks :
      (b : VmBuf) (s : S)
      → is_power_of_two p.page_size ≡ true
      → 0 < b.ptr % p.page_size
      → b.ptr % p.page_size + b.capacity ≤ p.page_size
      → b.ptr + b.capacity + p.page_size < 2 ^ 64
      → (shrink_to p k b 0 >>= drop p k) s ≡ ok (tt, s)
  unfolding drop dealloc_impl
  shrink_to-leaks b s pow inside one_page fits = rw (cutting.2, beyond)
    where
      cutting : (a : ℕ) × IsBoundary p.page_size b.ptr 0 a × (shrink_to p k b 0 s ≡ cut p k b 0 a s)
      cutting = shrink_to-cut b 0 s pow (omega arith) fits

      end : ℕ
      end = b.ptr + cutting.0

      behind : p.page_size * suc (b.ptr / p.page_size) ≤ p.page_size * (end / p.page_size)
      behind = mul-le-mul_left p.page_size (
          lt_of_mul-lt-mul_left p.page_size {m = b.ptr / p.page_size} {n = end / p.page_size} (
            omega (
              arith,
              div-add-mod b.ptr p.page_size,
              div-add-mod end p.page_size,
              cutting.1.on_page,
              inside,
            )))

      beyond : ltb cutting.0 b.capacity ≡ false
      beyond = ground (arith, far)
        where
          far : b.capacity ≤ cutting.0
          far = omega (
            arith,
            behind,
            mul-suc p.page_size (b.ptr / p.page_size),
            div-add-mod b.ptr p.page_size,
            div-add-mod end p.page_size,
            cutting.1.on_page,
            one_page,
          )
