-- ===== src/Buffer/Drop.antt =====
-- `Drop` of the buffer of msg/buffer.rs.
use mach_ports_rs.Prelude.{ℕ, ◌≡◌, List, Outcome, ok, require}
use mach_ports_rs.Abi.{Platform}
use mach_ports_rs.Buffer.{Buffer, has_layout}
use mach_ports_rs.Buffer.Holds.{Holds, layout_kept}

-- The allocation is handed back.
unfoldable pub drop : Platform → Buffer → Outcome (Unit {0})
drop p b = require (has_layout p b)

-- A buffer of the invariant hands its allocation back with the layout that it has.
pub drop-Holds : {p : Platform} {b : Buffer} {bs : List ℕ} → Holds p b bs → drop p b ≡ ok tt
unfolding drop
drop-Holds h = rw (layout_kept h)
