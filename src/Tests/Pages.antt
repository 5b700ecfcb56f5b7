-- ===== src/Tests/Pages.antt =====
-- The theorems on `OolVec` at concrete values.
use mach_ports_rs.Prelude.{
  ◌⊎◌, List, ℕ, ◌≡◌, refl, none, some, [], ◌∷◌, ◌++◌, map, replicate, ok, panic, Returns, true,
  length, ◌↔◌, arith,
}
use mach_ports_rs.Vm
use mach_ports_rs.Ool
use mach_ports_rs.Ool.{OolVec}
use mach_ports_rs.Ool.Slices.{eq, hash, eq-hash}
use mach_ports_rs.Ool.Bulk.{ool_vec-from_slice}
use mach_ports_rs.Ool.Holds.{VecHolds}
use mach_ports_rs.Ool.Extend.{Extends, try_extend-Extends}
use mach_ports_rs.Ool.Resize.{Resized, resize-VecHolds, resize_full}
use mach_ports_rs.Ool.Owned
use mach_ports_rs.Ool.Convert.{BufHolds, into_buf-BufHolds, from_slice-VecHolds}
use mach_ports_rs.Vm.Pages.{IsBoundary, cut}
use mach_ports_rs.Vm.Shrink.{shrink_to-cut, shrink_to-leaks}
use mach_ports_rs.Kernel
use mach_ports_rs.Kernel.{Kernel}
use mach_ports_rs.Tests.Layouts.{darwin}
use mach_ports_rs.Tests.Setup.{counting, Counts}

-- Three bytes of six.
abbrev three_of_six : OolVec
three_of_six = record {
  buf = Vm.from_raw_parts 4096 6;
  mem = map some (1 ∷ 2 ∷ 3 ∷ []) ++ replicate 3 none;
  len = 3;
}

three_of_six-VecHolds : VecHolds three_of_six (1 ∷ 2 ∷ 3 ∷ [])
three_of_six-VecHolds = record {
  rest = replicate 3 none;
  mem_eq = refl;
  len_eq = refl;
  mem_size = refl;
  cap_lt = omega arith;
}

try_extend_example :
    Returns
      (Extends three_of_six (1 ∷ 2 ∷ 3 ∷ []) (8 ∷ 9 ∷ []))
      (Ool.try_extend_from_slice darwin three_of_six (8 ∷ 9 ∷ []))
try_extend_example = try_extend-Extends darwin (8 ∷ 9 ∷ []) three_of_six-VecHolds

resize_example :
    Returns (Resized (1 ∷ 2 ∷ 3 ∷ 170 ∷ 170 ∷ [])) (Ool.resize darwin three_of_six 5 170)
resize_example = resize-VecHolds darwin 5 170 three_of_six-VecHolds (omega arith)

resize_full_example : Ool.resize darwin three_of_six 6 170 ≡ panic
resize_full_example = resize_full darwin 6 170 three_of_six-VecHolds refl

-- A kernel that gives out the second page at every request.
abbrev paging : Kernel Counts
paging = record counting {
  mach_vm_allocate = λ n flags s. (0, 4096, s);
  mach_vm_deallocate = λ a n s. (0, s);
}

abbrev no_counts : Counts
no_counts m r = 0

shrink_to_example :
    (a : ℕ) × IsBoundary 4096 4196 10000 a
    × (Vm.shrink_to darwin paging (Vm.from_raw_parts 4196 20000) 10000 no_counts
        ≡ cut darwin paging (Vm.from_raw_parts 4196 20000) 10000 a no_counts)
shrink_to_example =
    shrink_to-cut darwin paging (Vm.from_raw_parts 4196 20000) 10000 no_counts refl (omega arith)
      (omega arith)

shrink_leaks_example :
    Kernel.after
      (Vm.shrink_to darwin paging (Vm.from_raw_parts 4196 50) 0 no_counts)
      (Vm.drop darwin paging)
    ≡ ok (tt, no_counts)
shrink_leaks_example =
    shrink_to-leaks darwin paging (Vm.from_raw_parts 4196 50) no_counts refl (omega arith)
      (omega arith) (omega arith)

from_slice_example :
    Returns (λ q. VecHolds q.0 (5 ∷ 6 ∷ [])) (Owned.from_slice darwin paging (5 ∷ 6 ∷ []) no_counts)
from_slice_example =
    from_slice-VecHolds darwin paging (5 ∷ 6 ∷ []) no_counts
      (λ n flags s. (refl, λ e. absurd (omega (arith, e)))) (omega arith)

abbrev three_bytes : List ℕ
three_bytes = 1 ∷ 2 ∷ 3 ∷ []

into_buf_example :
    Returns
      (λ q. BufHolds q.0 (1 ∷ 2 ∷ 3 ∷ []) × ((q.0.buf.ptr ≡ 4096) ⊎ (three_bytes ≡ [])))
      (Owned.into_buf darwin paging three_of_six no_counts)
into_buf_example =
    into_buf-BufHolds darwin paging three_of_six (1 ∷ 2 ∷ 3 ∷ []) no_counts (λ a n s. refl) refl
      three_of_six-VecHolds (omega arith)

-- The same bytes in pages that they fill.
abbrev three_of_three : OolVec
three_of_three = record { buf = Vm.from_raw_parts 8192 3; mem = map some (1 ∷ 2 ∷ 3 ∷ []); len = 3 }

three_of_three-VecHolds : VecHolds three_of_three (1 ∷ 2 ∷ 3 ∷ [])
three_of_three-VecHolds = record {
  rest = [];
  mem_eq = refl;
  len_eq = refl;
  mem_size = refl;
  cap_lt = omega arith;
}

abbrev one_two_three : List ℕ
one_two_three = 1 ∷ 2 ∷ 3 ∷ []

eq_example :
    ((eq three_of_six three_of_three ≡ ok true) ↔ (one_two_three ≡ one_two_three))
    × (eq three_of_six three_of_three ≡ ok true
        → hash length three_of_six ≡ hash length three_of_three)
eq_example = eq-hash three_of_six-VecHolds three_of_three-VecHolds length

ool_vec_example :
    Owned.ool_vec darwin paging (5 ∷ 6 ∷ []) no_counts
    ≡ Owned.from_slice darwin paging (5 ∷ 6 ∷ []) no_counts
ool_vec_example = ool_vec-from_slice darwin paging (5 ∷ 6 ∷ []) no_counts
