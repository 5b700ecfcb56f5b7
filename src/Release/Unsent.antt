-- ===== src/Release/Unsent.antt =====
-- A builder that is dropped unsent after any calls.
use mach_ports_rs.Prelude.{
  ok, ℕ, ◌+◌, ◌*◌, ◌^◌, ◌<◌, ◌≤◌, ◌≡◌, refl, sym, ap, ◌∙◌, List, [], ◌∷◌, ◌++◌, map, append-nil,
  append_assoc, Bool, true, false, Bool-cases, inl, inr, ◌==◌, ==_iff, Returns, Returns-mono,
}
use mathlib.Core.Path.{subst}
use mach_ports_rs.Abi.{Platform, IsDarwin}
use mach_ports_rs.MsgBits.Fields.{Fields}
use mach_ports_rs.Kernel.{Kernel, ◌>>=◌, ◌>>◌, pure, seq-pure, seq-unit}
use mach_ports_rs.Rights.{send, send_once, recv}
use mach_ports_rs.Buffer.{Header}
use mach_ports_rs.Buffer.Growth.{Served}
use mach_ports_rs.Desc.{Layout, IsLayout}
use mach_ports_rs.Builder.{Builder}
use mach_ports_rs.Builder.Message.{Builds, some_descs}
use mach_ports_rs.Builder.Draft.{
  Call, append_made, append_copied, append_moved, append_ool, append_consumed_ool, append_inline,
  insert_inline, set_id, Draft, amend, amend_all, CallsFit, draft_size, Realizes,
}
use mach_ports_rs.Builder.Session.{empty_draft}
use mach_ports_rs.Reply.Asked.{
  Asked, no_answer, answer_made, answer_copied, answer_moved, asked_header, asked_fields, AskedFits,
  answer_back, not_null,
}
use mach_ports_rs.Reply.Requests.{
  Request, calls_of, asked_of, all_replaced, RepliesFit, draft_of, asked_of-AskedFits,
  build_requests, build_requests-Serves,
}
use mach_ports_rs.Release
use mach_ports_rs.Release.{drop_local}
use mach_ports_rs.Release.Contents
use mach_ports_rs.Release.Contents.{
  Content, item_of, AllFit, give_all_back, moved, copied, lent, consumed,
}
use mach_ports_rs.Release.Effect.{cleared, give_reply_back, drop-give_all_back}

-- What a call puts into the message that may own something.
abbrev pub content_of : Call → List Content
content_of (append_made right once) = Contents.made once right.name ∷ []
content_of (append_copied right) = copied right.name ∷ []
content_of (append_moved kind right) = moved kind right.name ∷ []
content_of (append_ool r kind) = lent r kind ∷ []
content_of (append_consumed_ool r kind) = consumed r kind ∷ []
content_of (append_inline bytes) = []
content_of (insert_inline at bytes) = []
content_of (set_id id) = []

abbrev pub contents_of : List Call → List Content
contents_of [] = []
contents_of (c ∷ cs) = content_of c ++ contents_of cs

amend-content_of :
    (p : Platform) (m : Draft) (c : Call)
    → (amend p m c).descs ≡ m.descs ++ map (item_of p) (content_of c)
amend-content_of p m (append_made right once) = refl
amend-content_of p m (append_copied right) = refl
amend-content_of p m (append_moved kind right) = refl
amend-content_of p m (append_ool r kind) = refl
amend-content_of p m (append_consumed_ool r kind) = refl
amend-content_of p m (append_inline bytes) = sym (append-nil m.descs)
amend-content_of p m (insert_inline at bytes) = sym (append-nil m.descs)
amend-content_of p m (set_id id) = sym (append-nil m.descs)

map_both :
    (p : Platform) (xs bs : List Content)
    → map (item_of p) (xs ++ bs) ≡ map (item_of p) xs ++ map (item_of p) bs
map_both p [] bs = refl
map_both p (x ∷ xs) bs = ap (λ r. item_of p x ∷ r) (map_both p xs bs)

amend_all-contents_of :
    (p : Platform) (m : Draft) (cs : List Call)
    → (amend_all p m cs).descs ≡ m.descs ++ map (item_of p) (contents_of cs)
amend_all-contents_of p m [] = sym (append-nil m.descs)
amend_all-contents_of p m (c ∷ cs) =
    amend_all-contents_of p (amend p m c) cs
    ∙ (ap (λ z. z ++ map (item_of p) (contents_of cs)) (amend-content_of p m c)
        ∙ (append_assoc m.descs (map (item_of p) (content_of c)) (map (item_of p) (contents_of cs))
            ∙ ap (λ z. m.descs ++ z) (sym (map_both p (content_of c) (contents_of cs)))))

module _ {p : Platform} (d : IsDarwin p) {S : Type 0} (k : Kernel S) where
  give_reply_back-answer_back :
      (asked : Asked) (c : Bool)
      → AskedFits p asked
      → give_reply_back p k (asked_header asked) (record (asked_fields p asked) { complex = c })
        ≡ answer_back p k asked
  unfolding drop_local
  give_reply_back-answer_back no_answer c fits = rw ((==_iff 0 p.port_null).1 (sym d.port_null))
  give_reply_back-answer_back (answer_made right true) c fits =
      elim (Bool-cases (right.name == p.port_null)) [
        | inl null ↦ rw null
        | inr named ↦
            rw (named, d.make_send_once, d.move_send, d.move_send_once, d.copy_send, d.make_send)
      ]
  give_reply_back-answer_back (answer_made right false) c fits =
      elim (Bool-cases (right.name == p.port_null)) [
        | inl null ↦ rw null
        | inr named ↦ rw (named, d.make_send, d.move_send, d.move_send_once, d.copy_send)
      ]
  give_reply_back-answer_back (answer_copied right) c fits =
      elim (Bool-cases (right.name == p.port_null)) [
        | inl null ↦ rw null
        | inr named ↦ rw (named, d.copy_send, d.move_send, d.move_send_once)
      ]
  give_reply_back-answer_back (answer_moved send base right) c fits =
      rw (not_null d k right.name fits, (==_iff p.move_send p.move_send).1 refl)
  give_reply_back-answer_back (answer_moved send_once base right) c fits =
      rw (not_null d k right.name fits, d.move_send_once, d.move_send)
  give_reply_back-answer_back (answer_moved recv base right) c fits = absurd base

-- A message that is not sent: when any requests that fit are made of a builder over a new buffer of
-- less than 2 ^ 28 bytes, two thirds of its capacity hold them all and the allocator serves every
-- request, building returns and has given back the reply ports that were replaced and nothing else,
-- and dropping the builder makes exactly the kernel calls that give back what was moved in, in this
-- order: the last reply right if it was moved, then for each descriptor its moved right or its
-- consumed memory; copied and made rights and lent memory are left alone. Names and regions are
-- those of words, consumed memory has an address and a moved reply right a name.
pub unsent-answer_back :
    {p : Platform} (d : IsDarwin p) (served : Served p) {l : Layout} (lay : IsLayout p l)
    {S : Type 0} (k : Kernel S) (capacity : ℕ) (rs : List Request) (s : S)
    → capacity < 2 ^ 28
    → CallsFit p empty_draft (calls_of rs)
    → RepliesFit p rs
    → 3 * draft_size (draft_of p rs) ≤ capacity + capacity
    → AllFit (contents_of (calls_of rs))
    → Returns
        (λ q.
          (all_replaced p k no_answer rs s ≡ ok (tt, q.1))
          × ((do buffer ← Release.drop p k l q.0; pure tt) ≡ (do
            answer_back p k (asked_of no_answer rs)
            give_all_back p k (contents_of (calls_of rs)))))
        (build_requests p k l capacity rs s)
unsent-answer_back {p} d served {l} lay {S} k capacity rs s small fits replies le all =
    Returns-mono (build_requests-Serves d served lay k capacity rs s small fits replies le)
      (λ q h. (h.1, dropped q.0 h.0))
  where
    dropped :
        (b : Builder)
        → Realizes p l
            (asked_header (asked_of no_answer rs))
            (asked_fields p (asked_of no_answer rs))
            capacity
            (draft_of p rs)
            b
        → (do buffer ← Release.drop p k l b; pure tt) ≡ (do
          answer_back p k (asked_of no_answer rs)
          give_all_back p k (contents_of (calls_of rs)))
    dropped b r =
        rw
          (drop-give_all_back d lay k b bits (contents_of (calls_of rs)) (draft_of p rs).inline
            builds all refl no_remote no_voucher)
          (seq-pure (give_reply_back p k b.buffer.header bits)
              (give_all_back p k (contents_of (calls_of rs)))
              (record (b.buffer) { header = cleared p b.buffer.header bits }) (λ buffer. pure tt)
            ∙ (ap (λ n. give_reply_back p k b.buffer.header bits >> n)
                  (seq-unit (give_all_back p k (contents_of (calls_of rs))))
                ∙ ap (λ n. n >> give_all_back p k (contents_of (calls_of rs))) answered))
      where
        bits : Fields
        bits = record (asked_fields p (asked_of no_answer rs)) {
          complex = some_descs (draft_of p rs).descs;
        }

        builds :
            Builds p l b bits (map (item_of p) (contents_of (calls_of rs))) (draft_of p rs).inline
        builds =
            subst (λ descs. Builds p l b bits descs (draft_of p rs).inline)
              (amend_all-contents_of p empty_draft (calls_of rs)) r.builds

        no_remote : b.buffer.header.msgh_remote_port ≡ p.port_null
        no_remote = ap (λ (z : Header). z.msgh_remote_port) r.header ∙ sym d.port_null

        no_voucher : b.buffer.header.msgh_voucher_port ≡ p.port_null
        no_voucher = ap (λ (z : Header). z.msgh_voucher_port) r.header ∙ sym d.port_null

        answered :
            give_reply_back p k b.buffer.header bits ≡ answer_back p k (asked_of no_answer rs)
        answered =
            ap (λ (z : Header). give_reply_back p k z bits) r.header
            ∙ give_reply_back-answer_back d k (asked_of no_answer rs)
                (some_descs (draft_of p rs).descs) (asked_of-AskedFits p no_answer rs tt replies)
