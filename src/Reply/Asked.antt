-- ===== src/Reply/Asked.antt =====
-- The reply port of a message that is built: what a call that sets one asks for, and what it replaces.
use mathlib.Core.Path.{subst}
use mach_ports_rs.Prelude.{
  ℕ, ◌≡◌, ◌≢◌, refl, sym, ap, ◌∙◌, Bool, true, false, Bool-cases, inl, inr, negsuc, ◌==◌, ==_iff,
  if◌then◌else◌, ok, Returns, returns, arith,
}
use mach_ports_rs.Abi.{Platform, IsDarwin}
use mach_ports_rs.MsgBits.Fields.{Fields, fields, encode}
use mach_ports_rs.Kernel.{Kernel, M, ◌>>◌, pure}
use mach_ports_rs.Rights
use mach_ports_rs.Rights.{
  RightKind, Right, SendRight, RecvRight, BaseSendRight, send, send_once, recv, msg_type,
  port_right,
}
use mach_ports_rs.Buffer.{Header, zero_header}
use mach_ports_rs.Desc.{Layout}
use mach_ports_rs.Builder.{Builder, made}
use mach_ports_rs.Builder.Message.{Builds, some_descs}
use mach_ports_rs.Builder.Draft.{Draft, Realizes}
use mach_ports_rs.Reply
use mach_ports_rs.Reply.Effect.{
  with_reply, release_old, set_kept_reply_port_lem, set_moved_reply_port_lem,
}

-- The answer that a sender asks for: the reply port that it sets in a new message.
pub data Asked : Type 0 where
  no_answer : Asked
  answer_made : RecvRight → Bool → Asked
  answer_copied : SendRight → Asked
  answer_moved : (kind : RightKind) → BaseSendRight kind → Right kind → Asked

unfoldable pub ask : {S : Type 0} → Platform → Kernel S → Builder → Asked → M S Builder
ask p k b no_answer = pure b
ask p k b (answer_made right once) = Reply.set_made_reply_port p k b right once
ask p k b (answer_copied right) = Reply.set_copied_reply_port p k b right
ask p k b (answer_moved kind base right) = Reply.set_moved_reply_port p k base b right

abbrev pub answer_name : Asked → ℕ
answer_name no_answer = 0
answer_name (answer_made right once) = right.name
answer_name (answer_copied right) = right.name
answer_name (answer_moved kind base right) = right.name

abbrev pub answer_bits : Platform → Asked → ℕ
answer_bits p no_answer = 0
answer_bits p (answer_made right once) = if once then p.make_send_once else p.make_send
answer_bits p (answer_copied right) = p.copy_send
answer_bits p (answer_moved kind base right) = msg_type p kind

-- The header and the bits of a new message with this reply port.
abbrev pub asked_header : Asked → Header
asked_header asked = record zero_header { msgh_local_port = answer_name asked }

abbrev pub asked_fields : Platform → Asked → Fields
asked_fields p asked = fields false 0 (answer_bits p asked) 0

-- A reply right that was moved in is named.
abbrev pub AskedFits : Platform → Asked → Type 0
AskedFits p (answer_moved kind base right) = right.name ≢ p.port_null
AskedFits p _ = Unit

module _ {S : Type 0} (p : Platform) (k : Kernel S) where
  -- What becomes of the reply port: a moved right is dropped, the others own nothing.
  abbrev pub answer_back : Asked → M S (Unit {0})
  answer_back no_answer = pure tt
  answer_back (answer_made right once) = pure tt
  answer_back (answer_copied right) = pure tt
  answer_back (answer_moved kind base right) = Rights.drop p k right

-- The reply port after another call: the last one that was set.
abbrev pub then_asked : Asked → Asked → Asked
then_asked old no_answer = old
then_asked old new = new

module _ {S : Type 0} (p : Platform) (k : Kernel S) where
  -- What a call gives back: the reply port that it replaces.
  abbrev pub replaced : Asked → Asked → M S (Unit {0})
  replaced old no_answer = pure tt
  replaced old new = answer_back p k old

  -- Dropping a right returns, whatever the kernel answers.
  pub drop-returns :
      {kind : RightKind} (right : Right kind) (s : S)
      → (s' : S) × (Rights.drop p k right s ≡ ok (tt, s'))
  unfolding Rights.drop Rights.mod_refs Rights.mod_refs_wrapper
  drop-returns {kind} right s = elim (Bool-cases (first.0 == p.kern_invalid_right)) [
    | inl invalid ↦
        ((k.mach_port_mod_refs right.name p.right_dead_name (negsuc 0) first.1).1, rw invalid)
    | inr valid ↦ (first.1, rw valid)
  ]
    where
      first : ℕ × S
      first = k.mach_port_mod_refs right.name (port_right p kind) (negsuc 0) s

  pub answer_back-returns :
      (asked : Asked) (s : S) → (s' : S) × (answer_back p k asked s ≡ ok (tt, s'))
  answer_back-returns no_answer s = (s, refl)
  answer_back-returns (answer_made right once) s = (s, refl)
  answer_back-returns (answer_copied right) s = (s, refl)
  answer_back-returns (answer_moved kind base right) s = drop-returns right s

module _ {p : Platform} (d : IsDarwin p) {S : Type 0} (k : Kernel S) where
  pub not_null : (name : ℕ) → name ≢ p.port_null → (name == p.port_null) ≡ false
  not_null name ne = ground arith

  -- `release_reply_port` gives back what the reply port owns.
  pub release-answer_back :
      (asked : Asked)
      → AskedFits p asked
      → (if answer_name asked == p.port_null
          then pure tt
          else Reply.drop_reply p k (answer_bits p asked) (answer_name asked))
        ≡ answer_back p k asked
  unfolding Reply.drop_reply
  release-answer_back no_answer fits = rw ((==_iff 0 p.port_null).1 (sym d.port_null))
  release-answer_back (answer_made right true) fits =
      elim (Bool-cases (right.name == p.port_null)) [
        | inl null ↦ rw null
        | inr named ↦ rw (named, d.make_send_once, d.move_send, d.move_send_once)
      ]
  release-answer_back (answer_made right false) fits =
      elim (Bool-cases (right.name == p.port_null)) [
        | inl null ↦ rw null
        | inr named ↦ rw (named, d.make_send, d.move_send, d.move_send_once)
      ]
  release-answer_back (answer_copied right) fits = elim (Bool-cases (right.name == p.port_null)) [
    | inl null ↦ rw null
    | inr named ↦ rw (named, d.copy_send, d.move_send, d.move_send_once)
  ]
  release-answer_back (answer_moved send base right) fits =
      rw (not_null right.name fits, (==_iff p.move_send p.move_send).1 refl)
  release-answer_back (answer_moved send_once base right) fits =
      rw (not_null right.name fits, d.move_send_once, d.move_send)
  release-answer_back (answer_moved recv base right) fits = absurd base

module _ {p : Platform} (d : IsDarwin p) {l : Layout} {S : Type 0} (k : Kernel S) {cap : ℕ}
    {m : Draft} {b : Builder} (old : Asked)
    (r : Realizes p l (asked_header old) (asked_fields p old) cap m b) (named : AskedFits p old)
    (s : S) where
  bits : Fields
  bits = record (asked_fields p old) { complex = some_descs m.descs }

  -- The call gives the old reply port back and leaves a header with the new one.
  put_reply :
      {P : Builder × S → Type 0} (f : Fields) (name : ℕ)
      → ((s' : S) → answer_back p k old s ≡ ok (tt, s') → P (with_reply b f name, s'))
      → Returns P ((do release_old p k b bits; pure (with_reply b f name)) s)
  unfolding bits
  put_reply {P} f name keep =
      let back = answer_back-returns p k old s in
      subst (λ (release : M S (Unit {0})). Returns P ((release >> pure (with_reply b f name)) s))
        (sym released) (rw back.1 (returns (keep back.0 back.1)))
    where
      released : release_old p k b bits ≡ answer_back p k old
      released =
          ap
            (λ (z : Header).
              if z.msgh_local_port == p.port_null
              then pure tt
              else Reply.drop_reply p k (answer_bits p old) z.msgh_local_port)
            r.header
          ∙ release-answer_back d k old named

  realized :
      (asked : Asked)
      → Builds p l
          (with_reply b
            (record (asked_fields p asked) { complex = some_descs m.descs })
            (answer_name asked))
          (record (asked_fields p asked) { complex = some_descs m.descs })
          m.descs
          m.inline
      → Realizes p l (asked_header asked) (asked_fields p asked) cap m (
          with_reply b
            (record (asked_fields p asked) { complex = some_descs m.descs })
            (answer_name asked))
  realized asked h = record {
    builds = h;
    capacity = r.capacity;
    header =
        ap
          (λ (z : Header). record z {
            msgh_local_port = answer_name asked;
            msgh_bits = encode (record (asked_fields p asked) { complex = some_descs m.descs });
          })
          r.header;
  }

  -- What a call that sets a reply port leaves: the message, with the new reply port.
  abbrev pub Sets : Asked → Builder × S → Type 0
  Sets new q =
      Realizes p l (asked_header (then_asked old new)) (asked_fields p (then_asked old new)) cap m
        q.0
      × (replaced p k old new s ≡ ok (tt, q.1))

  pub ask-Sets : (new : Asked) → Returns (Sets new) (ask p k b new s)
  unfolding ask bits
  ask-Sets no_answer = returns (r, refl)
  ask-Sets (answer_made right once) =
      let set = set_kept_reply_port_lem d k r.builds right once (record { name = 0 }) in
      rw set.0 (
        put_reply (fields (some_descs m.descs) 0 (made p once) 0) right.name
          (λ s' e. (realized (answer_made right once) set.2, e)))
  ask-Sets (answer_copied right) =
      let set = set_kept_reply_port_lem d k r.builds (record { name = 0 }) true right in
      rw set.1 (
        put_reply (fields (some_descs m.descs) 0 p.copy_send 0) right.name
          (λ s' e. (realized (answer_copied right) set.3, e)))
  ask-Sets (answer_moved kind base right) =
      let set = set_moved_reply_port_lem d k r.builds base right in
      rw set.0 (
        put_reply (fields (some_descs m.descs) 0 (msg_type p kind) 0) right.name
          (λ s' e. (realized (answer_moved kind base right) set.1, e)))
