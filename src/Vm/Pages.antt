-- ===== src/Vm/Pages.antt =====
-- Page boundaries, and which of them a region is cut at.
use mach_ports_rs.Prelude.{
  ℕ, suc, ◌+◌, ◌-◌, ◌*◌, ◌/◌, ◌%◌, ◌^◌, ◌<◌, ◌≤◌, ◌≡◌, ap, ◌∙◌, false, inl, inr, Bool-cases, ltb,
  ltb_iff, ◌==◌, if◌then◌else◌, ok, assert, Profile, add_word-ok, arith,
}
use native.Mathlib.Nat.{
  div-add-mod, mod-lt, mod-eq_of_lt, mod_self, mul-add, mul-suc, mul-one, mul-le-mul_left,
  mul-mod_right, lt_of_mul-lt-mul_left,
}
use mach_ports_rs.Abi.{Platform}
use mach_ports_rs.Kernel.{Kernel, M, ◌>>=◌, ◌>>◌, pure, lift, call}
use mach_ports_rs.Vm.{VmBuf, align_up, dangling, from_raw_parts}

-- The least multiple of the alignment from the value on.
record IsAligned (m x y : ℕ) : Type 0 where
  pages : ℕ
  multiple : y ≡ m * pages
  low : x ≤ y
  tight : y < x + m

align_up-IsAligned : (m x : ℕ) → 0 < m → IsAligned m x (x + (m - x % m) % m)
align_up-IsAligned m x pos = elim (Bool-cases (ltb 0 (x % m))) [
  | inl over ↦ record {
    pages = x / m + 1;
    multiple = omega (
      arith,
      div-add-mod x m,
      mod-lt x pos,
      mul-add m (x / m) 1,
      mod-eq_of_lt {n = m - x % m} {m = m} (omega (arith, (ltb_iff 0 (x % m)).0 over, pos)),
      mul-one m,
      (ltb_iff 0 (x % m)).0 over,
    );
    low = omega arith;
    tight = omega (arith, mod-lt (m - x % m) pos);
  }
  | inr none_over ↦ record {
    pages = x / m;
    multiple =
        omega (arith, div-add-mod x m, no_padding (zero_over none_over), zero_over none_over);
    low = omega arith;
    tight = omega (arith, mod-lt (m - x % m) pos);
  }
]
  where
    zero_over : ltb 0 (x % m) ≡ false → x % m ≡ 0
    zero_over n = ground arith

    no_padding : x % m ≡ 0 → (m - x % m) % m ≡ 0
    no_padding e = ap (λ z. z % m) (omega (arith, e)) ∙ mod_self m

pub align_up-ok :
    (profile : Profile) (x m : ℕ)
    → 0 < m
    → x + m < 2 ^ 64
    → align_up profile x m ≡ ok (x + (m - x % m) % m)
unfolding align_up
align_up-ok profile x m pos lt =
    add_word-ok profile 64 x ((m - x % m) % m) (omega (arith, mod-lt (m - x % m) pos, lt))

pages_le : (m a b : ℕ) → m * a < m * b + m → m * a ≤ m * b
pages_le m a b lt =
    mul-le-mul_left m
      (omega (arith, lt_of_mul-lt-mul_left m {m = a} {n = suc b} (omega (arith, mul-suc m b, lt))))

-- Where the region begins, the boundary on which it is cut lies so many bytes behind the begin.
pub record IsBoundary (m ptr target a : ℕ) : Type 0 where
  pub on_page : (ptr + a) % m ≡ 0
  pub keeps : target ≤ a
  pub least : a < target + m

module _ {S : Type 0} (p : Platform) (k : Kernel S) where
  -- The bytes from the boundary on are given back, if there are any.
  abbrev pub cut : VmBuf → (target a : ℕ) → M S VmBuf
  cut b target a =
      if ltb a b.capacity
      then (do
        result ← call (k.mach_vm_deallocate (b.ptr + a) (b.capacity - a))
        lift (assert (result == p.kern_success))
        pure (from_raw_parts (if a == 0 then dangling else b.ptr) target))
      else pure (from_raw_parts b.ptr target)

-- The bytes of a region up to the first boundary from the target on.
abbrev pub up_to : (m ptr target : ℕ) → ℕ
up_to m ptr target = target + ptr % m + (m - (target + ptr % m) % m) % m - ptr % m

pub up_to-IsBoundary : (m ptr target : ℕ) → 0 < m → IsBoundary m ptr target (up_to m ptr target)
up_to-IsBoundary m ptr target pos = record {
  on_page = ap (λ z. z % m) multiple ∙ mul-mod_right m (ptr / m + up.pages);
  keeps = omega (arith, up.low);
  least = omega (arith, up.tight);
}
  where
    up : IsAligned m (target + ptr % m) (target + ptr % m + (m - (target + ptr % m) % m) % m)
    up = align_up-IsAligned m (target + ptr % m) pos

    multiple : ptr + up_to m ptr target ≡ m * (ptr / m + up.pages)
    multiple = omega (arith, div-add-mod ptr m, up.multiple, up.low, mul-add m (ptr / m) up.pages)

-- Some pages are cut off exactly when the boundary lies within the region.
pub cut_iff :
    (m ptr target cap : ℕ)
    → 0 < m
    → target ≤ cap
    → ltb (up_to m ptr target) (up_to m ptr cap) ≡ ltb (up_to m ptr target) cap
cut_iff m ptr target cap pos le = ground (arith, to, from)
  where
    there : IsAligned m (target + ptr % m) (target + ptr % m + (m - (target + ptr % m) % m) % m)
    there = align_up-IsAligned m (target + ptr % m) pos

    end : IsAligned m (cap + ptr % m) (cap + ptr % m + (m - (cap + ptr % m) % m) % m)
    end = align_up-IsAligned m (cap + ptr % m) pos

    from : cap ≤ up_to m ptr target → up_to m ptr cap ≤ up_to m ptr target
    from h = omega (
      arith,
      there.multiple,
      end.multiple,
      pages_le m end.pages there.pages
          (omega (arith, there.multiple, end.multiple, end.tight, there.low, h)),
    )

    to : cap ≤ up_to m ptr cap
    to = omega (arith, end.low)
