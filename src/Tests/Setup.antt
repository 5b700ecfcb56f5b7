-- ===== src/Tests/Setup.antt =====
-- A kernel that keeps reference counts, as a concrete value of the parameter.
use mach_ports_rs.Prelude.{
  ℕ, ◌+◌, ◌-◌, ◌<◌, ◌≡◌, false, ◌&&◌, [], ℤ, pos, negsuc, ltb, ltb_iff, ◌==◌, if◌then◌else◌, arith,
}
use mach_ports_rs.Kernel.{Kernel, HasRefs, IsCovered}
use mach_ports_rs.Buffer.{zero_header}
use mach_ports_rs.Tests.Layouts.{darwin}

-- The count of each right under each name.
abbrev pub Counts : Type 0
Counts = ℕ → ℕ → ℕ

abbrev change : Counts → (name right : ℕ) → (ℕ → ℕ) → Counts
change s name right f m r = if m == name && r == right then f (s m r) else s m r

abbrev count_refs : (name right : ℕ) → ℤ → Counts → ℕ × Counts
count_refs name right (pos n) s =
    if ltb 0 (s name right) then (0, change s name right (λ c. c + n)) else (17, s)
count_refs name right (negsuc n) s =
    if ltb n (s name right)
    then (0, change s name right (λ c. c - (n + 1)))
    else if ltb 0 (s name right)
    then (18, s)
    else (17, s)

-- Memory is handed out at one address, and messages are lost.
abbrev pub counting : Kernel Counts
counting = record {
  mach_port_mod_refs = count_refs;
  mach_port_allocate = λ right s. (0, 259, change s 259 right (λ c. 1));
  mach_port_insert_right = λ name poly disposition s. (0, change s poly 0 (λ c. c + 1));
  mach_msg = λ c s. (0, record { header = zero_header; bytes = [] }, s);
  mach_vm_allocate = λ size flags s. (0, 4096, s);
  mach_vm_deallocate = λ address size s. (0, s);
}

pub held_counts :
    (s : Counts) (name right : ℕ) (delta : ℤ)
    → 0 < s name right
    → IsCovered delta (s name right)
    → (count_refs name right delta s).0 ≡ 0
held_counts s name right (pos n) held covered = rw ((ltb_iff 0 (s name right)).1 held)
held_counts s name right (negsuc n) held covered = rw ((ltb_iff n (s name right)).1 covered)

ltb-zero : (n : ℕ) → ltb n 0 ≡ false
ltb-zero n = ground arith

pub not_held_counts :
    (s : Counts) (name right : ℕ) (delta : ℤ)
    → s name right ≡ 0
    → count_refs name right delta s ≡ (17, s)
not_held_counts s name right (pos n) gone = rw gone
not_held_counts s name right (negsuc n) gone = rw (gone, ltb-zero n)

abbrev pub counting-HasRefs : HasRefs darwin counting
counting-HasRefs = record {
  refs = λ s. s;
  held = λ s name right delta ne. held_counts s name right delta;
  counted_up = λ s name right n ne held m r. rw ((ltb_iff 0 (s name right)).1 held);
  counted_down = λ s name right n ne covered m r. rw ((ltb_iff n (s name right)).1 covered);
  not_held = λ s name right delta ne gone other dead. not_held_counts s name right delta gone;
}
