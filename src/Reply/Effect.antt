-- ===== src/Reply/Effect.antt =====
-- What setting a reply port does to the old reply port and to the message.
use mathlib.Core.Path.{fun_ext}
use mach_ports_rs.Prelude.{
  ℕ, ◌<◌, ◌≡◌, refl, ◌∙◌, Bool, true, false, List, Outcome, ok, ◌==◌, if◌then◌else◌, arith,
}
use mach_ports_rs.Abi.{Platform, IsDarwin}
use mach_ports_rs.MsgBits
use mach_ports_rs.MsgBits.Fields.{
  Fields, fields, Fit, encode, getters, new_lem, set_local_lem, from_bits-encode,
}
use mach_ports_rs.Kernel.{Kernel, M, ◌>>=◌, ◌>>◌, pure, after-pure, lift}
use mach_ports_rs.Rights.{
  RightKind, Right, SendRight, RecvRight, BaseSendRight, send, send_once, recv, msg_type,
}
use mach_ports_rs.Desc.{Layout}
use mach_ports_rs.Desc.Read.{Item}
use mach_ports_rs.Buffer.Holds.{with_header-Holds}
use mach_ports_rs.Builder.{Builder, with_header, made}
use mach_ports_rs.Builder.Message.{Builds}
use mach_ports_rs.Reply.{
  drop_reply, release_reply_port, set_local_port, set_made_reply_port, set_copied_reply_port,
  set_moved_reply_port,
}

-- The builder with another reply port in its header.
abbrev pub with_reply : Builder → Fields → (name : ℕ) → Builder
with_reply b f name =
    with_header b (record (b.buffer.header) { msgh_local_port = name; msgh_bits = encode f })

abbrev pub with_local : Fields → ℕ → Fields
with_local f local = fields f.complex f.remote local f.voucher

-- What becomes of the old reply port.
abbrev pub release_old : {S : Type 0} → Platform → Kernel S → Builder → Fields → M S (Unit {0})
release_old p k b f =
    if b.buffer.header.msgh_local_port == p.port_null
    then pure tt
    else drop_reply p k f.local b.buffer.header.msgh_local_port

with_reply-Builds :
    {p : Platform} {l : Layout} {b : Builder} {f f' : Fields} {descs : List Item} {inline : List ℕ}
    (name : ℕ)
    → Builds p l b f descs inline
    → Fit f'
    → f'.complex ≡ f.complex
    → Builds p l (with_reply b f' name) f' descs inline
with_reply-Builds name h fit e = record {
  holds = with_header-Holds _ h.holds;
  off = h.off;
  bits = refl;
  fit = fit;
  complex = e ∙ h.complex;
}

module _ {p : Platform} (d : IsDarwin p) {S : Type 0} (k : Kernel S) {l : Layout} {b : Builder}
    {f : Fields} {descs : List Item} {inline : List ℕ} (h : Builds p l b f descs inline) where
  bits_read : MsgBits.from_bits p b.buffer.header.msgh_bits ≡ ok b.buffer.header.msgh_bits
  bits_read = rw h.bits (from_bits-encode d f h.fit)

  released : Builder
  released = with_header b (record (b.buffer.header) { msgh_local_port = p.port_null })

  release_reply_port_lem : release_reply_port p k b ≡ (do release_old p k b f; pure released)
  unfolding release_reply_port released
  release_reply_port_lem = fun_ext λ s. rw (bits_read, local_read)
    where
      local_read : MsgBits.local p b.buffer.header.msgh_bits ≡ f.local
      local_read = rw h.bits ((getters d f h.fit).2)

  -- New bits that are known go into the header.
  put :
      {o : Outcome ℕ} (f' : Fields) (name : ℕ)
      → o ≡ ok (encode f')
      → (s : S)
      → (release_old p k b f
            >> (lift o >>= λ bits. pure (
                with_header b
                  (record (b.buffer.header) { msgh_local_port = name; msgh_bits = bits }))))
          s
        ≡ (release_old p k b f >> pure (with_reply b f' name)) s
  put f' name e s = rw e

  set_local_port_lem :
      (name local : ℕ)
      → local < 32
      → set_local_port p k b name local
        ≡ (do release_old p k b f; pure (with_reply b (with_local f local) name))
  unfolding set_local_port released
  set_local_port_lem name local lt = fun_ext λ s.
      rw (release_reply_port_lem, after-pure (release_old p k b f s) released, bits_read)
        (put (with_local f local) name set s)
    where
      set : MsgBits.set_local p b.buffer.header.msgh_bits local ≡ ok (encode (with_local f local))
      set = rw h.bits (set_local_lem d f local h.fit lt)

  kind_fits : (kind : RightKind) → msg_type p kind < 32
  kind_fits send = omega (arith, d.move_send)
  kind_fits send_once = omega (arith, d.move_send_once)
  kind_fits recv = omega (arith, d.move_receive)

  made_fits : (once : Bool) → made p once < 32
  made_fits true = omega (arith, d.make_send_once)
  made_fits false = omega (arith, d.make_send)

  pub set_kept_reply_port_lem :
      (right : RecvRight) (once : Bool) (sender : SendRight)
      → (set_made_reply_port p k b right once
          ≡ (do release_old p k b f; pure (with_reply b (with_local f (made p once)) right.name)))
        × (set_copied_reply_port p k b sender
            ≡ (do release_old p k b f; pure (with_reply b (with_local f p.copy_send) sender.name)))
        × Builds p l
            (with_reply b (with_local f (made p once)) right.name)
            (with_local f (made p once))
            descs
            inline
        × Builds p l
            (with_reply b (with_local f p.copy_send) sender.name)
            (with_local f p.copy_send)
            descs
            inline
  unfolding set_made_reply_port set_copied_reply_port
  set_kept_reply_port_lem right once sender = (
    set_local_port_lem right.name (made p once) (made_fits once),
    set_local_port_lem sender.name p.copy_send copy,
    with_reply-Builds right.name h
        (record { remote = h.fit.remote; local = made_fits once; voucher = h.fit.voucher }) refl,
    with_reply-Builds sender.name h
        (record { remote = h.fit.remote; local = copy; voucher = h.fit.voucher }) refl,
  )
    where
      copy : p.copy_send < 32
      copy = omega (arith, d.copy_send)

  pub set_moved_reply_port_lem :
      {kind : RightKind} (base : BaseSendRight kind) (right : Right kind)
      → (set_moved_reply_port p k base b right ≡ (do
        release_old p k b f
        pure (with_reply b (fields f.complex 0 (msg_type p kind) f.voucher) right.name)))
        × Builds p l
            (with_reply b (fields f.complex 0 (msg_type p kind) f.voucher) right.name)
            (fields f.complex 0 (msg_type p kind) f.voucher)
            descs
            inline
  unfolding set_moved_reply_port released
  set_moved_reply_port_lem {kind} base right = (
    fun_ext λ s.
        rw (release_reply_port_lem, after-pure (release_old p k b f s) released, bits_read)
          (put (fields f.complex 0 (msg_type p kind) f.voucher) right.name new s),
    with_reply-Builds right.name h
        (record { remote = omega arith; local = kind_fits kind; voucher = h.fit.voucher }) refl,
  )
    where
      new :
          MsgBits.new p
            (MsgBits.complex p b.buffer.header.msgh_bits)
            0
            (msg_type p kind)
            (MsgBits.voucher p b.buffer.header.msgh_bits)
          ≡ ok (encode (fields f.complex 0 (msg_type p kind) f.voucher))
      new =
          rw (h.bits, (getters d f h.fit).0, (getters d f h.fit).3)
            (ground (
              arith,
              kind_fits kind,
              h.fit.voucher,
              new_lem d f.complex 0 (msg_type p kind) f.voucher (omega arith)
                  (omega (arith, kind_fits kind)) (omega (arith, h.fit.voucher)),
            ))
