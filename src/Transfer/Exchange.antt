-- ===== src/Transfer/Exchange.antt =====
-- A message from the calls that build it to the receiver's parsers, with an answer that is asked for.
use mach_ports_rs.Prelude.{
  ℕ, ◌+◌, ◌*◌, ◌^◌, ◌<◌, ◌≤◌, ◌≡◌, refl, ap, ◌∙◌, none, some, List, [], ◌++◌, map, length, Outcome,
  ok, panic, Returns, returns,
}
use mach_ports_rs.Abi.{Platform, IsDarwin}
use mach_ports_rs.MsgBits.Fields.{fields, encode}
use mach_ports_rs.Kernel.{Kernel, M, MsgCall, Received, Returns-after, ◌>>=◌, lift}
use mach_ports_rs.Rights.{SendRight, RecvRight}
use mach_ports_rs.Buffer.{Buffer, Header}
use mach_ports_rs.Buffer.Holds.{Holds}
use mach_ports_rs.Buffer.Growth.{Served}
use mach_ports_rs.Desc.{Layout, IsLayout}
use mach_ports_rs.Builder.{Builder}
use mach_ports_rs.Builder.Message.{some_descs, desc_area}
use mach_ports_rs.Builder.Draft.{Draft, CallsFit, Realizes, draft_size}
use mach_ports_rs.Builder.Session.{empty_draft}
use mach_ports_rs.Parser.Roundtrip.{Delivered}
use mach_ports_rs.Parser.Incoming.{ReplyIn, IsReceived, Parsed, parse_message}
use mach_ports_rs.Parser.Received.{parse_message-received}
use mach_ports_rs.Transfer
use mach_ports_rs.Transfer.{Result, done, failed}
use mach_ports_rs.Reply.Asked.{Asked, no_answer, answer_bits, asked_header, asked_fields}
use mach_ports_rs.Reply.Requests.{
  Request, calls_of, asked_of, all_replaced, RepliesFit, draft_of, build_requests,
  build_requests-Serves,
}
use mach_ports_rs.Transfer.Conveyed.{
  expected, reply_kind, right_kind, right_kind-reply_of, Conveyed, Arrives, Conveyed-Arrives,
  Conveyed-length,
}
use mach_ports_rs.Transfer.Sent.{send_call, sends-hand_over}
use mach_ports_rs.Transfer.Arrived.{IsDelivery, IsDone, recv_call, recv-IsReceived}

-- The header under which a draft with a reply port is sent to the port that a right names.
abbrev pub sent_header : Platform → Asked → Draft → (name : ℕ) → Header
sent_header p asked m name = record (asked_header asked) {
  msgh_id = m.id;
  msgh_remote_port = name;
  msgh_bits = encode (fields (some_descs m.descs) p.copy_send (answer_bits p asked) 0);
}

-- What is assumed of the kernel, for one message: `mach_msg` accepts it, and the next receive on the port
-- gets its identifier and its inline data unchanged, no voucher, a right or memory of its own for each
-- descriptor, and the reply right of the documented kind if an answer is asked for.
pub record IsConveyed {S : Type 0} (p : Platform) (l : Layout) (k : Kernel S) (s : S)
    (asked : Asked) (m : Draft) (name : ℕ) (to : MsgCall) (room : ℕ) : Type 0 where
  pub left : Header
  pub received : Received
  pub between : S
  pub behind : S
  pub reply : ReplyIn
  pub carried : List Delivered
  pub accepted :
      k.mach_msg (send_call p (sent_header p asked m name) (desc_area l m.descs ++ m.inline)) s
      ≡ (p.kern_success, record { header = left; bytes = [] }, between)
  pub delivered : k.mach_msg to between ≡ (p.kern_success, received, behind)
  pub delivery : IsDelivery p l received reply none carried m.inline
  pub answer : reply_kind reply ≡ expected p asked
  pub id : received.header.msgh_id ≡ m.id
  pub conveyed : Conveyed p m.descs carried
  pub fits : length received.bytes ≤ room
  pub size_fits : received.header.msgh_size ≤ room

abbrev pub taken : Result Buffer → Outcome Buffer
taken (done b) = ok b
taken (failed e) = panic

-- The sender sends what it has built, and the receiver receives it and reads it to its end.
abbrev pub exchange :
    {S : Type 0}
    → Platform
    → Kernel S
    → Layout
    → SendRight
    → RecvRight
    → Builder
    → Buffer
    → (n : ℕ) → M S Parsed
exchange p k l right port b receiving n = do
  (sent, buffer) ← Transfer.send p k right b
  result ← Transfer.recv p k port receiving
  parser ← lift (taken result)
  lift (parse_message p l n parser)

-- The outcome of reading: the identifier and the inline data are what they were, the descriptors have
-- arrived, the reply right is of the kind that was asked for, and there is no voucher.
abbrev pub IsRead : {S : Type 0} → Platform → Asked → Draft → Parsed × S → Type 0
IsRead p asked m q =
    (q.0.0.id ≡ m.id)
    × (right_kind q.0.0.reply_right ≡ expected p asked)
    × (q.0.0.voucher ≡ none)
    × Arrives p m.descs (q.0.1)
    × (q.0.2 ≡ map some m.inline)

module _ {p : Platform} (d : IsDarwin p) {l : Layout} (lay : IsLayout p l) {S : Type 0}
    (k : Kernel S) (asked : Asked) (m : Draft) where
  -- What a parser of the received message gives.
  parse_message-IsRead :
      {b : Buffer} (reply : ReplyIn) (cs : List Delivered) (s : S)
      → Conveyed p m.descs cs
      → reply_kind reply ≡ expected p asked
      → b.header.msgh_id ≡ m.id
      → IsReceived p l b reply none cs m.inline
      → Returns (IsRead p asked m) (lift (parse_message p l (length m.descs) b) s)
  parse_message-IsRead reply cs s conveyed answer id h =
      rw (Conveyed-length p m.descs cs conveyed, parse_message-received d lay cs h)
        (returns (
          id,
          right_kind-reply_of reply ∙ answer,
          refl,
          Conveyed-Arrives p m.descs cs conveyed,
          refl,
        ))

  take_parser :
      (header : Header) (reply : ReplyIn) (cs : List Delivered) (s : S) (result : Result Buffer)
      → Conveyed p m.descs cs
      → reply_kind reply ≡ expected p asked
      → header.msgh_id ≡ m.id
      → IsDone (λ b. IsReceived p l b reply none cs m.inline × (b.header ≡ header)) result
      → Returns
          (IsRead p asked m)
          ((lift (taken result) >>= λ parser. lift (parse_message p l (length m.descs) parser)) s)
  take_parser header reply cs s (done b) conveyed answer id h =
      parse_message-IsRead reply cs s conveyed answer (ap (λ (z : Header). z.msgh_id) h.1 ∙ id) h.0
  take_parser header reply cs s (failed e) conveyed answer id h = absurd h

  exchange-IsRead :
      {cap : ℕ} (b : Builder) (right : SendRight) (port : RecvRight) {receiving : Buffer}
      {bs : List ℕ} (s : S)
      → Realizes p l (asked_header asked) (asked_fields p asked) cap m b
      → Holds p receiving bs
      → IsConveyed p l k s asked m right.name
          (recv_call p receiving.header port.name)
          receiving.capacity
      → Returns (IsRead p asked m) (exchange p k l right port b receiving (length m.descs) s)
  exchange-IsRead b right port {receiving} s r held c =
      rw ((sends-hand_over d k r.builds right (record { name = 0 })).0, r.header, c.accepted)
        (Returns-after
          (recv-IsReceived d k held port c.between c.delivery c.fits c.size_fits c.delivered)
          (λ result.
            lift (taken result) >>= λ parser. lift (parse_message p l (length m.descs) parser))
          (λ q h.
            take_parser c.received.header c.reply c.carried (q.1) (q.0) c.conveyed c.answer c.id
              (h.0)))

-- A message on its whole way: when any requests that fit are made of a builder over a new buffer of
-- a capacity below 2 ^ 28 (calls that add descriptors and inline data or set the identifier, and
-- reply ports that are made, copied or moved, in any order), two thirds of the capacity hold them
-- all, the allocator serves every request, the reply ports that were replaced have been given back,
-- and the kernel conveys the message that the requests describe (it takes it, and the next receive
-- on the port, into a buffer of the invariant with room for it, gets the identifier, the inline
-- data, for each descriptor a right of the kind that mach/message.h documents or memory of the same
-- size, and the reply right of the documented kind, see IsConveyed), then building, sending,
-- receiving and parsing all return, and the parsers give the identifier, a reply right of the
-- documented kind exactly if a reply port was set, no voucher, a right of the documented kind or
-- memory of the right size for each descriptor in the order of the requests, and the inline data
-- byte for byte.
pub built-IsRead :
    {p : Platform} (d : IsDarwin p) (served : Served p) {l : Layout} (lay : IsLayout p l)
    {S : Type 0} (k : Kernel S) (capacity : ℕ) (rs : List Request) (right : SendRight)
    (port : RecvRight) {receiving : Buffer} {bs : List ℕ} (s s' : S)
    → capacity < 2 ^ 28
    → CallsFit p empty_draft (calls_of rs)
    → RepliesFit p rs
    → 3 * draft_size (draft_of p rs) ≤ capacity + capacity
    → Holds p receiving bs
    → all_replaced p k no_answer rs s ≡ ok (tt, s')
    → IsConveyed p l k s'
        (asked_of no_answer rs)
        (draft_of p rs)
        right.name
        (recv_call p receiving.header port.name)
        receiving.capacity
    → Returns (IsRead p (asked_of no_answer rs) (draft_of p rs)) (
        (do
          b ← build_requests p k l capacity rs
          exchange p k l right port b receiving (length (draft_of p rs).descs))
          s)
built-IsRead {p = p} d served {l = l} lay {S = S} k capacity rs right port {receiving = receiving} s
      s' small fits replies le held e c =
    Returns-after (build_requests-Serves d served lay k capacity rs s small fits replies le)
      (λ b. exchange p k l right port b receiving (length (draft_of p rs).descs))
      (λ q h. rw (same_state q.1 h.1) (
        exchange-IsRead d lay k (asked_of no_answer rs) (draft_of p rs) q.0 right port s' h.0 held
          c))
  where
    same_state : (s'' : S) → all_replaced p k no_answer rs s ≡ ok (tt, s'') → s'' ≡ s'
    same_state s'' e' = cc (e, e')
