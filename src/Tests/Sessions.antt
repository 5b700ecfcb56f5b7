-- ===== src/Tests/Sessions.antt =====
-- Calls of a builder, and a builder that is dropped twice, at concrete values.
use mach_ports_rs.Prelude.{ok, true, ℕ, ◌≡◌, refl, List, [], ◌∷◌, Returns, arith}
use mach_ports_rs.Kernel.{◌>>=◌, ◌>>◌, pure}
use mach_ports_rs.Rights.{send, send_once, recv, from_raw_name}
use mach_ports_rs.Builder
use mach_ports_rs.Builder.{Region, virtual}
use mach_ports_rs.Builder.Draft.{
  append_made, append_copied, append_moved, append_consumed_ool, append_inline, insert_inline,
  set_id,
}
use mach_ports_rs.Builder.Session.{empty_draft}
use mach_ports_rs.Release
use mach_ports_rs.Release.Contents.{give_all_back}
use mach_ports_rs.Release.Effect.{cleared, give_reply_back}
use mach_ports_rs.Release.Unsent.{contents_of, unsent-answer_back}
use mach_ports_rs.Reply.Asked.{no_answer, answer_moved, answer_back}
use mach_ports_rs.Reply.Requests.{
  Request, plain, reply, calls_of, asked_of, all_replaced, Serves, build_requests,
  build_requests-Serves,
}
use mach_ports_rs.Release.Again.{drop_twice}
use mach_ports_rs.Tests.Layouts.{darwin, darwin-IsDarwin, darwin-Served, packed, packed-IsLayout}
use mach_ports_rs.Tests.Setup.{counting}
use mach_ports_rs.Tests.Messages.{
  message, header, bits, contents, contents-AllFit, inline, message-Builds,
}

-- Every way of adding to a message, and a reply port that is replaced.
abbrev requests : List Request
requests =
    plain (append_inline (1 ∷ 2 ∷ []))
    ∷ reply (answer_moved send tt (from_raw_name 5))
    ∷ plain (append_copied (from_raw_name 7))
    ∷ plain (insert_inline 1 (9 ∷ []))
    ∷ plain (append_made (from_raw_name 8) true)
    ∷ plain (set_id 42)
    ∷ plain (append_moved recv (from_raw_name 9))
    ∷ plain (append_consumed_ool (record { address = 4096; size = 100 }) virtual)
    ∷ reply (answer_moved send_once tt (from_raw_name 6))
    ∷ []

abbrev no_counts : ℕ → ℕ → ℕ
no_counts m r = 0

requests_example :
    Returns
      (Serves darwin packed counting 120 empty_draft no_answer requests no_counts)
      (build_requests darwin counting packed 120 requests no_counts)
requests_example =
    build_requests-Serves darwin-IsDarwin darwin-Served packed-IsLayout counting 120 requests
      no_counts (omega arith) (tt, (tt, (omega arith, (tt, (tt, (tt, (omega arith, tt)))))))
      (omega arith, (omega arith, tt)) (omega arith)

unsent_example :
    Returns
      (λ q.
        (all_replaced darwin counting no_answer requests no_counts ≡ ok (tt, q.1))
        × ((do buffer ← Release.drop darwin counting packed q.0; pure tt) ≡ (do
          answer_back darwin counting (asked_of no_answer requests)
          give_all_back darwin counting (contents_of (calls_of requests)))))
      (build_requests darwin counting packed 120 requests no_counts)
unsent_example =
    unsent-answer_back darwin-IsDarwin darwin-Served packed-IsLayout counting 120 requests no_counts
      (omega arith) (tt, (tt, (omega arith, (tt, (tt, (tt, (omega arith, tt)))))))
      (omega arith, (omega arith, tt)) (omega arith)
      (omega arith, (omega arith, (omega arith, (((omega arith, omega arith), omega arith), tt))))

drop_twice_example :
    (do
      buffer ← Release.drop darwin counting packed message
      Release.drop darwin counting packed (Builder.new buffer))
    ≡ (do
      give_reply_back darwin counting header bits
      give_all_back darwin counting contents
      give_all_back darwin counting contents
      pure (record (message.buffer) { header = cleared darwin header bits }))
drop_twice_example =
    drop_twice darwin-IsDarwin packed-IsLayout counting message bits contents inline message-Builds
      contents-AllFit refl refl refl
