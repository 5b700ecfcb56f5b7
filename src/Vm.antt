-- ===== src/Vm.antt =====
-- `VmBuf` of msg/ool.rs: a region of pages owned through its address and its size.
pub mod Pages
pub mod Shrink
use mach_ports_rs.Prelude.{
  ℕ, ◌-◌, ◌%◌, ◌^◌, ◌&&◌, Bool, Option, none, some, ltb, leb, ◌==◌, if◌then◌else◌, not, assert,
  unwrap, Outcome, Profile, sub_word, add_word, bit_and,
}
use mach_ports_rs.Abi.{Platform}
use mach_ports_rs.Kernel.{Kernel, M, ◌>>=◌, ◌>>◌, pure, lift, call}

pub record VmBuf : Type 0 where
  pub ptr : ℕ
  pub capacity : ℕ

-- `NonNull::dangling()` of a type aligned to one byte.
abbrev pub dangling : ℕ
dangling = 1

-- `NonNull::new`
abbrev pub nonnull : ℕ → Option ℕ
nonnull address = if address == 0 then none else some address

abbrev pub empty_buf : VmBuf
empty_buf = record { ptr = dangling; capacity = 0 }

abbrev pub from_raw_parts : (ptr capacity : ℕ) → VmBuf
from_raw_parts ptr capacity = record { ptr = ptr; capacity = capacity }

-- `usize::is_power_of_two`
abbrev pub is_power_of_two : ℕ → Bool
is_power_of_two n = not (n == 0) && bit_and n (n - 1) == 0

-- `align_up` at `usize`.
unfoldable pub align_up : Profile → ℕ → ℕ → Outcome ℕ
align_up profile value alignment =
    add_word profile 64 value ((alignment - value % alignment) % alignment)

module _ {S : Type 0} (p : Platform) (k : Kernel S) where
  unfoldable pub alloc : ℕ → M S VmBuf
  alloc capacity =
      if ltb 0 capacity
      then (do
        lift (assert (leb capacity (2 ^ 63 - 1)))
        (result, address) ←
            call (λ s. let (r, a, s') = k.mach_vm_allocate capacity p.vm_flags s in ((r, a), s'))
        lift (assert (result == p.kern_success))
        ptr ← lift (unwrap (nonnull address))
        pure (from_raw_parts ptr capacity))
      else pure (from_raw_parts dangling capacity)

  -- What is cut off is given back from the first page boundary behind the target on.
  unfoldable pub shrink_to : VmBuf → ℕ → M S VmBuf
  shrink_to b target_capacity = do
    let offset_in_page = b.ptr % p.page_size
    lift (assert (leb target_capacity b.capacity))
    lift (assert (is_power_of_two p.page_size))
    cur_end ← lift (add_word p.profile 64 b.capacity offset_in_page)
    cur_aligned ← lift (align_up p.profile cur_end p.page_size)
    aligned_capacity ← lift (sub_word p.profile 64 cur_aligned offset_in_page)
    target_end ← lift (add_word p.profile 64 target_capacity offset_in_page)
    target_aligned ← lift (align_up p.profile target_end p.page_size)
    aligned_target ← lift (sub_word p.profile 64 target_aligned offset_in_page)
    if ltb aligned_target aligned_capacity
        then (do
          size ← lift (sub_word p.profile 64 b.capacity aligned_target)
          address ← lift (add_word p.profile 64 b.ptr aligned_target)
          result ← call (k.mach_vm_deallocate address size)
          lift (assert (result == p.kern_success))
          pure (from_raw_parts (if aligned_target == 0 then dangling else b.ptr) target_capacity))
        else pure (from_raw_parts b.ptr target_capacity)

  unfoldable pub dealloc_impl : VmBuf → M S ℕ
  dealloc_impl b =
      if ltb 0 b.capacity then call (k.mach_vm_deallocate b.ptr b.capacity) else pure p.kern_success

  unfoldable pub drop : VmBuf → M S (Unit {0})
  drop b = do _ ← dealloc_impl b; pure tt
