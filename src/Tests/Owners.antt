-- ===== src/Tests/Owners.antt =====
-- Wrappers that a program holds, at concrete values.
use mach_ports_rs.Prelude.{
  ℕ, ◌⊎◌, refl, ◌≡◌, ◌<◌, [], ◌∷◌, ◌==◌, ◌&&◌, if◌then◌else◌, Returns, arith,
}
use mach_ports_rs.Rights
use mach_ports_rs.Rights.{from_raw_name}
use mach_ports_rs.Rights.Ports.{MakesSends, make_send-drop}
use mach_ports_rs.Rights.Counts.{Counted}
use mach_ports_rs.Rights.Ledger.{
  owns_send, owns_send_once, Reach, start, later, adopted, died, TakesOne,
}
use mach_ports_rs.Rights.Covered.{live_right-Counted}
use mach_ports_rs.Tests.Layouts.{darwin, darwin-IsDarwin}
use mach_ports_rs.Tests.Setup.{Counts, counting, counting-HasRefs}

-- One send right under 3, and one send once right under 4.
abbrev held_counts : Counts
held_counts m r = if m == 3 && r == 0 then 1 else if m == 4 && r == 2 then 1 else 0

counting-MakesSends : MakesSends counting-HasRefs
counting-MakesSends = record { inserted = λ s name success m r. ground arith }

make_send_example :
    Returns
      (λ r.
        (r.0.name ≡ 3)
        × Counted held_counts r.1 3 0 2
        × Returns
            (λ q. (m n : ℕ) → q.1 m n ≡ held_counts m n)
            (Rights.drop darwin counting r.0 r.1))
      (Rights.make_send darwin counting (from_raw_name 3) held_counts)
make_send_example =
    make_send-drop darwin-IsDarwin counting-HasRefs counting-MakesSends (from_raw_name 3)
      held_counts refl

-- The port of 3 has died.
abbrev dead_counts : Counts
dead_counts m r = if m == 3 && r == 4 then 1 else if m == 3 && r == 0 then 0 else held_counts m r

two_held : Reach counting-HasRefs held_counts (owns_send_once 4 ∷ owns_send 3 ∷ []) held_counts
two_held =
    later (later start (adopted [] (owns_send 3) (omega arith)))
      (adopted (owns_send 3 ∷ []) (owns_send_once 4) (omega arith))

one_dead : Reach counting-HasRefs held_counts (owns_send_once 4 ∷ owns_send 3 ∷ []) dead_counts
one_dead =
    later two_held (
      died (owns_send_once 4 ∷ owns_send 3 ∷ []) 3 refl refl (omega arith) (λ m r ne. ground arith))

live_right_example :
    ((0 < dead_counts 3 0) × TakesOne counting-HasRefs dead_counts (owns_send 3) 0)
    ⊎ ((dead_counts 3 0 ≡ 0)
        × (0 < dead_counts 3 4)
        × TakesOne counting-HasRefs dead_counts (owns_send 3) 4)
live_right_example =
    live_right-Counted darwin-IsDarwin counting-HasRefs counting-MakesSends (owns_send_once 4 ∷ [])
      (owns_send 3) [] one_dead
