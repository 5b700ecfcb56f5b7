-- ===== src/Tests/Refs.antt =====
-- The theorems on reference counts at concrete values.
use mach_ports_rs.Prelude.{ℕ, ◌≡◌, refl, ◌&&◌, ◌==◌, if◌then◌else◌, Returns, arith}
use mach_ports_rs.Rights
use mach_ports_rs.Rights.{RightKind, Right, SendRight, send, send_once}
use mach_ports_rs.Rights.Counts.{Counted, drop_dead-Counted, clone-drop, clone_from-Counted}
use mach_ports_rs.Tests.Layouts.{darwin, darwin-IsDarwin}
use mach_ports_rs.Tests.Setup.{Counts, counting, counting-HasRefs}

-- Two references to a send right under the name 3, one dead name under 5, one send right under 7.
abbrev some_counts : Counts
some_counts m r =
    if m == 3 && r == 0
    then 2
    else if m == 5 && r == 4
    then 1
    else if m == 7 && r == 0
    then 1
    else 0

abbrev right_of : (name : ℕ) → SendRight
right_of name = record { name = name }

drop_dead_example :
    Returns
      (λ r. Counted some_counts r.1 5 4 0)
      (Rights.drop darwin counting (right_of 5) some_counts)
drop_dead_example =
    drop_dead-Counted darwin-IsDarwin counting counting-HasRefs (right_of 5) some_counts tt refl
      (omega arith)

clone_example :
    Returns
      (λ r.
        (r.0.name ≡ 3)
        × Counted some_counts r.1 3 0 3
        × Returns
            (λ q. (m n : ℕ) → q.1 m n ≡ some_counts m n)
            (Rights.drop darwin counting r.0 r.1))
      (Rights.clone darwin counting (right_of 3) some_counts)
clone_example =
    clone-drop darwin-IsDarwin counting counting-HasRefs (right_of 3) some_counts (omega arith)

clone_from_example :
    Returns
      (λ r. (r.0.name ≡ 7) × (r.1 7 0 ≡ 1) × (r.1 3 0 ≡ 3))
      (Rights.clone_from darwin counting (right_of 3) (right_of 7) some_counts)
clone_from_example =
    clone_from-Counted darwin-IsDarwin counting counting-HasRefs (right_of 3) (right_of 7)
      some_counts (omega arith) (omega arith)
