-- ===== src/Rights/Ports.antt =====
-- Making send rights of a receive right.
use mach_ports_rs.Prelude.{
  ℕ, ◌+◌, ◌<◌, ◌≡◌, refl, ==_iff, ok, Returns, returns, Returns-mono, Returns-ok, arith,
}
use mach_ports_rs.Abi.{Platform, IsDarwin}
use mach_ports_rs.Kernel.{Kernel, HasRefs}
use mach_ports_rs.Rights
use mach_ports_rs.Rights.{Right, SendRight, RecvRight, send, from_raw_name}
use mach_ports_rs.Rights.Counts.{Counted, drop-Counted}

-- What `mach_port_insert_right` is documented to do when it makes a send right of a receive right
-- under the same name and succeeds: the send right has one more reference.
pub record MakesSends {S : Type 0} {p : Platform} {k : Kernel S} (h : HasRefs p k) : Type 0 where
  pub inserted :
      (s : S) (name : ℕ)
      → (k.mach_port_insert_right name name p.make_send s).0 ≡ p.kern_success
      → Counted
          (h.refs s)
          (h.refs (k.mach_port_insert_right name name p.make_send s).1)
          name
          p.right_send
          (h.refs s name p.right_send + 1)

module _ {S : Type 0} {p : Platform} (d : IsDarwin p) {k : Kernel S} (h : HasRefs p k)
    (i : MakesSends h) where
  -- Under the documented behaviour of mach_port_insert_right and mach_port_mod_refs, make_send that
  -- the kernel accepts returns a wrapper of the name of the receive right and adds one reference to
  -- the send right, and dropping the wrapper then gives every count its old value back.
  pub make_send-drop :
      (right : RecvRight) (s : S)
      → (k.mach_port_insert_right right.name right.name p.make_send s).0 ≡ p.kern_success
      → Returns
          (λ r.
            (r.0.name ≡ right.name)
            × Counted
                (h.refs s)
                (h.refs r.1)
                right.name
                p.right_send
                (h.refs s right.name p.right_send + 1)
            × Returns (λ q. (m n : ℕ) → h.refs q.1 m n ≡ h.refs s m n) (Rights.drop p k r.0 r.1))
          (Rights.make_send p k right s)
  unfolding Rights.make_send
  make_send-drop right s success =
      rw (success, (==_iff p.kern_success p.kern_success).1 refl)
        (returns (
          refl,
          up,
          Returns-mono (drop-Counted d k h (from_raw_name {kind = send} right.name) s' tt more)
              (λ q c m n. ground (arith, c m n, up m n, up right.name p.right_send)),
        ))
    where
      s' : S
      s' = (k.mach_port_insert_right right.name right.name p.make_send s).1

      up :
          Counted
            (h.refs s)
            (h.refs s')
            right.name
            p.right_send
            (h.refs s right.name p.right_send + 1)
      up = i.inserted s right.name success

      more : 0 < h.refs s' right.name p.right_send
      more = ground (arith, up right.name p.right_send)

  accepted :
      (right : RecvRight) (copy : SendRight) (s s' : S)
      → Rights.make_send p k right s ≡ ok (copy, s')
      → (k.mach_port_insert_right right.name right.name p.make_send s).0 ≡ p.kern_success
  unfolding Rights.make_send
  accepted right copy s s' e = ground (arith, e)

  -- What is known of a call that returned.
  pub made-Counted :
      (right : RecvRight) (copy : SendRight) (s s' : S)
      → Rights.make_send p k right s ≡ ok (copy, s')
      → (copy.name ≡ right.name)
        × Counted
            (h.refs s)
            (h.refs s')
            right.name
            p.right_send
            (h.refs s right.name p.right_send + 1)
  made-Counted right copy s s' e =
      let made = Returns-ok (make_send-drop right s (accepted right copy s s' e)) e in
      (made.0, made.1)
