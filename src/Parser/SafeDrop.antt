-- ===== src/Parser/SafeDrop.antt =====
-- Messages that nobody vouches for, dropped unread: the memory that is accessed.
use mach_ports_rs.Prelude.{
  ℕ, zero, suc, ◌%◌, ◌≡◌, Bool, true, false, inl, inr, Bool-cases, Option, none, some, ◌==◌,
  if◌then◌else◌, Outcome, IsDefined, Safely, safely, stopped, negsuc,
}
use mach_ports_rs.Abi.{Platform}
use mach_ports_rs.Kernel.{Kernel, M, after, lift}
use mach_ports_rs.Rights
use mach_ports_rs.Rights.{
  RightKind, Right, SendRight, AnySendRight, any_send, any_send_once, send, send_once, recv,
  from_raw_name, port_right,
}
use mach_ports_rs.Buffer.{Buffer}
use mach_ports_rs.Desc.{Layout, TransmutedMsgDesc, port, ool, ool_volatile, ool_ports}
use mach_ports_rs.Desc.References.{AreAligned, references, references-AreAligned}
use mach_ports_rs.Desc.Safe.{IsFilled, next_desc_impl-IsDefined}
use mach_ports_rs.Parser.{DescOrBodyParser, descriptor, body_left}
use mach_ports_rs.Parser.Safe.{Over, parse_header_impl-Safely}
use mach_ports_rs.Parser.Discard
use mach_ports_rs.Parser.Discard.{
  drop_unread_desc, drop_unread, drop_parser, drop_reply_right, drop_voucher_right,
}

module _ {S A B : Type 0} {P : A → Type 0} {Q : B × S → Type 0} where
  after-Safely :
      {o : Outcome (A × S)} {f : A → M S B}
      → Safely (λ q. P q.0) o
      → ((a : A) (s : S) → P a → Safely Q (f a s))
      → Safely Q (after o f)
  after-Safely (safely {a} h) next = next (a.0) (a.1) h
  after-Safely stopped next = stopped

lift-Safely :
    {S A : Type 0} {P : A → Type 0} {o : Outcome A} (s : S)
    → Safely P o
    → Safely (λ q. P q.0) (lift o s)
lift-Safely s (safely h) = safely h
lift-Safely s stopped = stopped

either-IsDefined :
    {S A : Type 0} (c : Bool) (m n : M S A) (s : S)
    → IsDefined (m s)
    → IsDefined (n s)
    → IsDefined ((if c then m else n) s)
either-IsDefined true m n s hm hn = hm
either-IsDefined false m n s hm hn = hn

module _ {S : Type 0} (p : Platform) (k : Kernel S) where
  right_drop-IsDefined :
      (kind : RightKind) (right : Right kind) (s : S) → IsDefined (Rights.drop p k right s)
  unfolding Rights.drop Rights.mod_refs Rights.mod_refs_wrapper
  right_drop-IsDefined kind right s = elim (Bool-cases (first.0 == p.kern_invalid_right)) [
    | inl invalid ↦ rw invalid (safely tt)
    | inr valid ↦ rw valid (safely tt)
  ]
    where
      first : ℕ × S
      first = k.mach_port_mod_refs right.name (port_right p kind) (negsuc 0) s

  module _ (l : Layout) where
    drop_unread_desc-IsDefined :
        (desc : TransmutedMsgDesc) (s : S) → IsDefined (drop_unread_desc p k l desc s)
    unfolding drop_unread_desc
    drop_unread_desc-IsDefined (port x) s =
        either-IsDefined (x.disposition == p.move_send) _ _ s
          (right_drop-IsDefined send (from_raw_name x.name) s)
          (either-IsDefined (x.disposition == p.move_send_once) _ _ s
            (right_drop-IsDefined send_once (from_raw_name x.name) s)
            (either-IsDefined (x.disposition == p.move_receive) _ _ s
              (right_drop-IsDefined recv (from_raw_name x.name) s) stopped))
    drop_unread_desc-IsDefined (ool x) s = stopped
    drop_unread_desc-IsDefined (ool_volatile x) s = stopped
    drop_unread_desc-IsDefined ool_ports s = stopped

    drop_reply_right-IsDefined :
        (r : Option AnySendRight) (s : S) → IsDefined (drop_reply_right p k l r s)
    drop_reply_right-IsDefined none s = safely tt
    drop_reply_right-IsDefined (some (any_send r)) s = right_drop-IsDefined send r s
    drop_reply_right-IsDefined (some (any_send_once r)) s = right_drop-IsDefined send_once r s

    drop_voucher_right-IsDefined :
        (r : Option SendRight) (s : S) → IsDefined (drop_voucher_right p k l r s)
    drop_voucher_right-IsDefined none s = safely tt
    drop_voucher_right-IsDefined (some r) s = right_drop-IsDefined send r s

    module _ {b : Buffer} (h : IsFilled p b) where
      drop_unread-IsDefined :
          (count offset : ℕ) (s : S) → IsDefined (drop_unread p k l b count offset s)
      unfolding drop_unread
      drop_unread-IsDefined zero offset s = safely tt
      drop_unread-IsDefined (suc count) offset s =
          after-Safely (lift-Safely s (next_desc_impl-IsDefined p l h offset))
            (λ (desc, next_offset) s' u.
              after-Safely (drop_unread_desc-IsDefined desc s')
                (λ v s'' w. drop_unread-IsDefined count next_offset s''))

      drop_parser-IsDefined :
          (parser : DescOrBodyParser)
          → Over b parser
          → (s : S) → IsDefined (drop_parser p k l parser s)
      unfolding drop_parser
      drop_parser-IsDefined (descriptor x) e s = rw e (drop_unread-IsDefined x.count x.offset s)
      drop_parser-IsDefined (body_left r) e s = safely tt

      message_drop-IsDefined : (s : S) → IsDefined (Discard.drop p k l b s)
      unfolding Discard.drop
      message_drop-IsDefined s =
          after-Safely (lift-Safely s (parse_header_impl-Safely p l h)) (λ (hdr, parser) s₁ over.
            after-Safely (drop_reply_right-IsDefined hdr.reply_right s₁) (λ u s₂ v.
              after-Safely (drop_voucher_right-IsDefined hdr.voucher s₂)
                (λ w s₃ x. drop_parser-IsDefined parser over s₃)))

      -- Dropping a MsgParser unread, whatever the bytes, the header and the sizes in them are and
      -- whatever the kernel answers, returns or panics and never accesses memory outside of the
      -- buffer or bytes that were never written, and every reference that next_desc_impl forms to a
      -- descriptor which it returns is aligned for its type, provided that the kernel filled the
      -- buffer with as many bytes as msgh_size says, that a complex message has room for a number
      -- of descriptors, that the buffer lies at a multiple of the alignment of a port descriptor,
      -- and that the type of an OOL descriptor needs no more alignment than that (mach/message.h
      -- packs it to four bytes; the comment at parser.rs:134 takes it to need more, which is not
      -- covered).
      pub drop-IsDefined :
          (s : S) (ool_align base : ℕ)
          → p.port_descriptor_align % ool_align ≡ 0
          → base % p.port_descriptor_align ≡ 0
          → IsDefined (Discard.drop p k l b s)
            × ((count offset : ℕ) → AreAligned (references p l ool_align base b count offset))
      drop-IsDefined s ool_align base packed placed =
          (message_drop-IsDefined s, references-AreAligned p l ool_align base packed placed b)
