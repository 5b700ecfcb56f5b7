-- ===== src/Ool/Owned.antt =====
-- The operations of `OolVec` and `OolBuf` of msg/ool.rs that call the kernel through `VmBuf`.
use mach_ports_rs.Prelude.{
  ℕ, ◌+◌, ◌-◌, ◌%◌, Bool, ◌==◌, List, [], ◌++◌, none, map, length, replicate, take, drop, read_at,
  access, Outcome, ok, panic, undefined,
}
use mach_ports_rs.Abi.{Platform}
use mach_ports_rs.Kernel.{Kernel, M, ◌>>=◌, ◌>>◌, pure, lift}
use mach_ports_rs.Buffer.{Cell}
use mach_ports_rs.Vm
use mach_ports_rs.Vm.{VmBuf}
use mach_ports_rs.Ool.{OolVec, extend_from_slice, extend}

-- `OolBuf`: all of its pages are its contents.
pub record OolBuf : Type 0 where
  pub buf : VmBuf
  pub mem : List Cell

abbrev pub contents : OolBuf → Outcome (List Cell)
contents b = access (read_at b.mem 0 b.buf.capacity)

abbrev pub from_raw_parts : (ptr : ℕ) (mem : List Cell) (length : ℕ) → OolBuf
from_raw_parts ptr mem length = record { buf = Vm.from_raw_parts ptr length; mem = mem }

abbrev pub into_raw_parts : OolBuf → ℕ × ℕ
into_raw_parts b = (b.buf.ptr, b.buf.capacity)

abbrev pub len : OolBuf → ℕ
len b = b.buf.capacity

abbrev pub is_empty : OolBuf → Bool
is_empty b = len b == 0

-- `From<OolBuf>`
abbrev pub into_vec : OolBuf → OolVec
into_vec b = record { buf = b.buf; mem = b.mem; len = len b }

-- What is left of the memory of a region at `ptr` when `size` bytes at `address` are unmapped, which
-- takes whole pages: all from the begin of the page of `address` on goes, up to the last byte.
unfoldable pub unmapped : (page ptr : ℕ) → List Cell → (address size : ℕ) → List Cell
unmapped page ptr mem address size =
    let first = address - address % page - ptr in
    take first mem
    ++ (map (λ _. none) (take (address + size - ptr - first) (drop first mem))
        ++ drop (address + size - ptr) mem)

-- The kernel beside the memory of a region at `ptr`: `mach_vm_allocate` gives as many bytes as it is
-- asked for, none of them written, and `mach_vm_deallocate` takes its range away, whatever it returns:
-- where it fails the code panics.
abbrev pub mapping : {S : Type 0} → Platform → Kernel S → (ptr : ℕ) → Kernel (S × List Cell)
mapping p k ptr = record {
  mach_port_mod_refs = λ name right delta (s, mem).
      let (r, s') = k.mach_port_mod_refs name right delta s in (r, (s', mem));
  mach_port_allocate =
      λ right (s, mem). let (r, n, s') = k.mach_port_allocate right s in (r, n, (s', mem));
  mach_port_insert_right = λ name poly disposition (s, mem).
      let (r, s') = k.mach_port_insert_right name poly disposition s in (r, (s', mem));
  mach_msg = λ c (s, mem). let (r, m, s') = k.mach_msg c s in (r, m, (s', mem));
  mach_vm_allocate = λ size flags (s, mem).
      let (r, address, s') = k.mach_vm_allocate size flags s in
      (r, address, (s', replicate size none));
  mach_vm_deallocate = λ address size (s, mem).
      let (r, s') = k.mach_vm_deallocate address size s in
      (r, (s', unmapped p.page_size ptr mem address size));
}

abbrev rearrange :
    {S : Type 0} → Outcome (VmBuf × (S × List Cell)) → Outcome ((VmBuf × List Cell) × S)
rearrange (ok (buf, (s, mem))) = ok ((buf, mem), s)
rearrange panic = panic
rearrange undefined = undefined

-- An operation of a region, with what becomes of the memory of the region.
abbrev pub with_memory :
    {S : Type 0} → M (S × List Cell) VmBuf → List Cell → M S (VmBuf × List Cell)
with_memory op mem s = rearrange (op (s, mem))

module _ {S : Type 0} (p : Platform) (k : Kernel S) where
  unfoldable pub with_capacity : ℕ → M S OolVec
  with_capacity n = do
    (buf, mem) ← with_memory (Vm.alloc p (mapping p k 0) n) []
    pure (record { buf = buf; mem = mem; len = 0 })

  -- `From<&[u8]>`
  unfoldable pub from_slice : List ℕ → M S OolVec
  from_slice value = do vec ← with_capacity (length value); lift (extend_from_slice p vec value)

  -- `ool_vec![..; cap]`: the values are pushed one after the other.
  unfoldable pub ool_vec_with : List ℕ → (cap : ℕ) → M S OolVec
  ool_vec_with vals cap = do v ← with_capacity cap; lift (extend p v vals)

  -- `ool_vec![..]`: the macro counts the values.
  unfoldable pub ool_vec : List ℕ → M S OolVec
  ool_vec vals = ool_vec_with vals (length vals)

  -- What lies behind the new capacity is not the vector's any more.
  unfoldable pub shrink_to_fit : OolVec → M S OolVec
  shrink_to_fit v = do
    (buf, mem) ← with_memory (Vm.shrink_to p (mapping p k v.buf.ptr) v.buf v.len) v.mem
    pure (record { buf = buf; mem = take v.len mem; len = v.len })

  -- `From<OolVec>`: `mem::take` leaves an empty region in the vector, which is then dropped.
  unfoldable pub into_buf : OolVec → M S OolBuf
  into_buf v = do
    fit ← shrink_to_fit v
    Vm.drop p k Vm.empty_buf
    pure (record { buf = fit.buf; mem = fit.mem })
