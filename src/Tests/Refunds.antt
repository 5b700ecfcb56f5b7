-- ===== src/Tests/Refunds.antt =====
-- The reference counts after a message that is not sent, at concrete values.
use mach_ports_rs.Prelude.{ℕ, ◌+◌, ◌≡◌, [], ◌∷◌, ◌==◌, ◌&&◌, if◌then◌else◌, List, Returns, arith}
use mach_ports_rs.Kernel.{pure, ◌>>=◌}
use mach_ports_rs.Rights.{send, send_once, from_raw_name}
use mach_ports_rs.Builder.Draft.{append_moved, append_copied, append_inline}
use mach_ports_rs.Reply.Asked.{answer_moved}
use mach_ports_rs.Reply.Requests.{Request, plain, reply, build_requests}
use mach_ports_rs.Release
use mach_ports_rs.Release.Refs.{moved_refs, moved_in, unsent-refs}
use mach_ports_rs.Tests.Layouts.{darwin, darwin-IsDarwin, darwin-Served, packed, packed-IsLayout}
use mach_ports_rs.Tests.Setup.{Counts, counting, counting-HasRefs}

-- Two references to a send right under 3, and a send once right under 4.
abbrev some_refs : Counts
some_refs m r = if m == 3 && r == 0 then 2 else if m == 4 && r == 2 then 1 else 0

abbrev requests : List Request
requests =
    reply (answer_moved send tt (from_raw_name 3))
    ∷ plain (append_moved send (from_raw_name 3))
    ∷ plain (append_copied (from_raw_name 7))
    ∷ reply (answer_moved send_once tt (from_raw_name 4))
    ∷ plain (append_inline (1 ∷ []))
    ∷ []

unsent_refs_example :
    Returns
      (λ q. (m r : ℕ) → q.1 m r + moved_refs darwin (moved_in requests) m r ≡ some_refs m r)
      ((do
        b ← build_requests darwin counting packed 96 requests
        buffer ← Release.drop darwin counting packed b
        pure tt)
        some_refs)
unsent_refs_example =
    unsent-refs darwin-IsDarwin darwin-Served packed-IsLayout counting-HasRefs 96 requests some_refs
      (omega arith) (tt, (tt, (tt, tt))) (omega arith, (omega arith, tt)) (omega arith)
      (omega arith, (omega arith, tt)) (tt, (tt, (tt, (tt, tt)))) (λ m r. ground arith)
