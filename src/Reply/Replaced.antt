-- ===== src/Reply/Replaced.antt =====
-- Setting a reply port where another stands: what is given back of the old one, and the message that
-- is left.
use mach_ports_rs.Prelude.{ℕ, ◌≡◌, ap, ◌∙◌, Bool, List, ◌==◌, if◌then◌else◌}
use mach_ports_rs.Abi.{Platform, IsDarwin}
use mach_ports_rs.MsgBits.Fields.{Fields, fields}
use mach_ports_rs.Kernel.{Kernel, M, ◌>>◌, pure}
use mach_ports_rs.Rights.{
  RightKind, Right, SendRight, RecvRight, BaseSendRight, send, send_once, recv,
}
use mach_ports_rs.Desc.{Layout}
use mach_ports_rs.Desc.Read.{Item}
use mach_ports_rs.Builder.{Builder}
use mach_ports_rs.Builder.Message.{Builds}
use mach_ports_rs.Reply
use mach_ports_rs.Reply.{set_made_reply_port, set_copied_reply_port, set_moved_reply_port}
use mach_ports_rs.Reply.Effect.{
  with_reply, with_local, release_old, set_kept_reply_port_lem, set_moved_reply_port_lem,
}
use mach_ports_rs.Reply.Asked.{
  Asked, answer_name, answer_bits, AskedFits, answer_back, release-answer_back,
}

-- The disposition that moves a right of the kind.
abbrev pub move_of : Platform → RightKind → ℕ
move_of p send = p.move_send
move_of p send_once = p.move_send_once
move_of p recv = p.move_receive

-- The reply port of the header is this one.
pub record HasReply (p : Platform) (b : Builder) (f : Fields) (old : Asked) : Type 0 where
  pub name : b.buffer.header.msgh_local_port ≡ answer_name old
  pub bits : f.local ≡ answer_bits p old
  pub named : AskedFits p old

module _ {p : Platform} (d : IsDarwin p) {S : Type 0} (k : Kernel S) {l : Layout} {b : Builder}
    {f : Fields} {descs : List Item} {inline : List ℕ} (h : Builds p l b f descs inline)
    {old : Asked} (r : HasReply p b f old) where
  given_back : release_old p k b f ≡ answer_back p k old
  given_back =
      ap (λ n. if n == p.port_null then pure tt else Reply.drop_reply p k f.local n) r.name
      ∙ ap
          (λ n.
            if answer_name old == p.port_null
            then pure tt
            else Reply.drop_reply p k n (answer_name old))
          r.bits
      ∙ release-answer_back d k old r.named

  after_back : (b' : Builder) → (release_old p k b f >> pure b') ≡ (answer_back p k old >> pure b')
  after_back b' = ap (λ (m : M S (Unit {0})). m >> pure b') given_back

  -- On a message that a builder holds, with any reply port that its calls can set or none,
  -- set_made_reply_port and set_copied_reply_port first give back what the old reply port owns (a
  -- send or send once right that was moved in is dropped; a made or copied one, or none, costs no
  -- kernel call), and then put the name of the right and MAKE_SEND_ONCE, MAKE_SEND or COPY_SEND
  -- into the header; all other header fields and bits, the descriptors and the inline data stay.
  pub set_kept_reply_port-answer_back :
      (right : RecvRight) (once : Bool) (sender : SendRight)
      → (set_made_reply_port p k b right once ≡ (do
        answer_back p k old
        pure (
            with_reply b
              (with_local f (if once then p.make_send_once else p.make_send))
              right.name)))
        × (set_copied_reply_port p k b sender
            ≡ (do answer_back p k old; pure (with_reply b (with_local f p.copy_send) sender.name)))
        × Builds p l
            (with_reply b
              (with_local f (if once then p.make_send_once else p.make_send))
              right.name)
            (with_local f (if once then p.make_send_once else p.make_send))
            descs
            inline
        × Builds p l
            (with_reply b (with_local f p.copy_send) sender.name)
            (with_local f p.copy_send)
            descs
            inline
  set_kept_reply_port-answer_back right once sender =
      let set = set_kept_reply_port_lem d k h right once sender in
      (set.0 ∙ after_back _, set.1 ∙ after_back _, set.2, set.3)

  -- On a message that a builder holds, with any reply port that its calls can set or none, moving a
  -- send or a send once right in as the reply port first gives back what the old reply port owns (a
  -- send or send once right that was moved in is dropped; a made or copied one, or none, costs no
  -- kernel call), and then puts the name of the right and the MOVE of its kind into the header and
  -- clears the remote bits; the descriptors and the inline data stay.
  pub set_moved_reply_port-answer_back :
      {kind : RightKind} (base : BaseSendRight kind) (right : Right kind)
      → (set_moved_reply_port p k base b right ≡ (do
        answer_back p k old
        pure (with_reply b (fields f.complex 0 (move_of p kind) f.voucher) right.name)))
        × Builds p l
            (with_reply b (fields f.complex 0 (move_of p kind) f.voucher) right.name)
            (fields f.complex 0 (move_of p kind) f.voucher)
            descs
            inline
  set_moved_reply_port-answer_back {kind = send} base right =
      let set = set_moved_reply_port_lem d k h {kind = send} base right in
      (set.0 ∙ after_back _, set.1)
  set_moved_reply_port-answer_back {kind = send_once} base right =
      let set = set_moved_reply_port_lem d k h {kind = send_once} base right in
      (set.0 ∙ after_back _, set.1)
  set_moved_reply_port-answer_back {kind = recv} base right = absurd base
