-- ===== src/Rights/Counts.antt =====
-- What dropping and cloning a wrapper do to the reference counts of the rights.
use mach_ports_rs.Prelude.{
  ℕ, ◌+◌, ◌-◌, ◌<◌, ◌≡◌, ◌≢◌, refl, false, ◌&&◌, ◌==◌, if◌then◌else◌, ap, ==_iff, ℤ, pos, negsuc,
  ok, Returns, returns, Returns-mono, arith,
}
use mach_ports_rs.Abi.{Platform, IsDarwin}
use mach_ports_rs.Kernel.{Kernel, HasRefs, IsCovered}
use mach_ports_rs.Rights
use mach_ports_rs.Rights.{
  RightKind, BaseSendRight, send, send_once, recv, Right, SendRight, port_right, mod_refs_wrapper,
}

-- The counts `before`, with the one of `right` under `name` changed to `count`.
abbrev pub Counted : (before after : ℕ → ℕ → ℕ) → (name right count : ℕ) → Type 0
Counted before after name right count =
    (m r : ℕ) → after m r ≡ (if m == name && r == right then count else before m r)

module _ {S : Type 0} {p : Platform} (d : IsDarwin p) (k : Kernel S) (h : HasRefs p k) where
  pub port_right-ne-receive :
      (kind : RightKind) → BaseSendRight kind → port_right p kind ≢ p.right_receive
  port_right-ne-receive send b = omega (arith, d.right_send, d.right_receive)
  port_right-ne-receive send_once b = omega (arith, d.right_send_once, d.right_receive)
  port_right-ne-receive recv b = absurd b

  success-ne-invalid : (p.kern_success == p.kern_invalid_right) ≡ false
  success-ne-invalid = rw (d.kern_success, d.kern_invalid_right)

  -- A live right is changed by the first call.
  pub wrapper_held :
      (s : S) (name right : ℕ) (delta : ℤ)
      → right ≢ p.right_receive
      → 0 < h.refs s name right
      → IsCovered delta (h.refs s name right)
      → mod_refs_wrapper p k name right delta s
        ≡ ok (p.kern_success, (k.mach_port_mod_refs name right delta s).1)
  unfolding mod_refs_wrapper
  wrapper_held s name right delta ne held covered =
      rw (h.held s name right delta ne held covered, success-ne-invalid)

  -- A right that has become a dead name is changed by the second call, on the dead name.
  wrapper_dead :
      (s : S) (name right : ℕ) (delta : ℤ)
      → right ≢ p.right_receive
      → h.refs s name right ≡ 0
      → 0 < h.refs s name p.right_dead_name
      → IsCovered delta (h.refs s name p.right_dead_name)
      → mod_refs_wrapper p k name right delta s
        ≡ ok (p.kern_success, (k.mach_port_mod_refs name p.right_dead_name delta s).1)
  unfolding mod_refs_wrapper
  wrapper_dead s name right delta ne gone dead covered =
      rw
        (
          h.not_held s name right delta ne gone p.right_dead_name dead,
          (==_iff p.kern_invalid_right p.kern_invalid_right).1 refl,
        )
        (ap (λ r. ok (r, (k.mach_port_mod_refs name p.right_dead_name delta s).1))
          (h.held s name p.right_dead_name delta (omega (arith, d.right_dead_name, d.right_receive))
            dead covered))

  -- Under the documented behaviour of mach_port_mod_refs, dropping a send or a send once right that
  -- is held takes one reference from that right and touches no other count.
  pub drop-Counted :
      {kind : RightKind} (right : Right kind) (s : S)
      → BaseSendRight kind
      → 0 < h.refs s right.name (port_right p kind)
      → Returns
          (λ r.
            Counted
              (h.refs s)
              (h.refs r.1)
              right.name
              (port_right p kind)
              (h.refs s right.name (port_right p kind) - 1))
          (Rights.drop p k right s)
  unfolding Rights.drop Rights.mod_refs
  drop-Counted {kind} right s b held =
      rw
        (wrapper_held s right.name (port_right p kind) (negsuc 0) (port_right-ne-receive kind b)
          held held)
        (returns (λ m r. ground (
          arith,
          h.counted_down s right.name (port_right p kind) 0 (port_right-ne-receive kind b) held m r,
        )))

  -- Under the documented behaviour of mach_port_mod_refs, dropping a send or a send once right
  -- whose port has died, so that only a dead name is held, takes one reference from the dead name
  -- and touches no other count.
  pub drop_dead-Counted :
      {kind : RightKind} (right : Right kind) (s : S)
      → BaseSendRight kind
      → h.refs s right.name (port_right p kind) ≡ 0
      → 0 < h.refs s right.name p.right_dead_name
      → Returns
          (λ r.
            Counted
              (h.refs s)
              (h.refs r.1)
              right.name
              p.right_dead_name
              (h.refs s right.name p.right_dead_name - 1))
          (Rights.drop p k right s)
  unfolding Rights.drop Rights.mod_refs
  drop_dead-Counted {kind} right s b gone dead =
      rw
        (wrapper_dead s right.name (port_right p kind) (negsuc 0) (port_right-ne-receive kind b)
          gone dead dead)
        (returns (λ m r. ground (
          arith,
          h.counted_down s right.name p.right_dead_name 0
              (omega (arith, d.right_dead_name, d.right_receive)) dead m r,
        )))

  -- Under the documented behaviour of mach_port_mod_refs, cloning a held send right gives a wrapper
  -- of the same name and adds one reference, and dropping the clone then gives every count its old
  -- value back.
  pub clone-drop :
      (right : SendRight) (s : S)
      → 0 < h.refs s right.name p.right_send
      → Returns
          (λ r.
            (r.0.name ≡ right.name)
            × Counted
                (h.refs s)
                (h.refs r.1)
                right.name
                p.right_send
                (h.refs s right.name p.right_send + 1)
            × Returns (λ q. (m n : ℕ) → h.refs q.1 m n ≡ h.refs s m n) (Rights.drop p k r.0 r.1))
          (Rights.clone p k right s)
  unfolding Rights.clone Rights.mod_refs
  clone-drop right s held =
      rw
        (
          wrapper_held s right.name p.right_send (pos 1) ne held tt,
          (==_iff p.kern_success p.kern_success).1 refl,
        )
        (returns (
          refl,
          up,
          Returns-mono (drop-Counted right s' tt more)
              (λ q c m n. ground (arith, c m n, up m n, up right.name p.right_send)),
        ))
    where
      s' : S
      s' = (k.mach_port_mod_refs right.name p.right_send (pos 1) s).1

      ne : p.right_send ≢ p.right_receive
      ne = port_right-ne-receive send tt

      up :
          Counted
            (h.refs s)
            (h.refs s')
            right.name
            p.right_send
            (h.refs s right.name p.right_send + 1)
      up m r = ground (arith, h.counted_up s right.name p.right_send 1 ne held m r)

      more : 0 < h.refs s' right.name p.right_send
      more = ground (arith, up right.name p.right_send)

  pub clone_dead-Counted :
      (right : SendRight) (s : S)
      → h.refs s right.name p.right_send ≡ 0
      → 0 < h.refs s right.name p.right_dead_name
      → Returns
          (λ r.
            (r.0.name ≡ right.name)
            × Counted
                (h.refs s)
                (h.refs r.1)
                right.name
                p.right_dead_name
                (h.refs s right.name p.right_dead_name + 1))
          (Rights.clone p k right s)
  unfolding Rights.clone Rights.mod_refs
  clone_dead-Counted right s gone dead =
      rw
        (
          wrapper_dead s right.name p.right_send (pos 1) (port_right-ne-receive send tt) gone dead
              tt,
          (==_iff p.kern_success p.kern_success).1 refl,
        )
        (returns (
          refl,
          λ m r. ground (
            arith,
            h.counted_up s right.name p.right_dead_name 1
                (omega (arith, d.right_dead_name, d.right_receive)) dead m r,
          ),
        ))

  -- Under the documented behaviour of mach_port_mod_refs, clone_from on a held send right and a
  -- source of another name takes its reference on the right that self held: the wrapper then has
  -- the name of the source, whose count is what it was, and the count of the old right is one
  -- higher.
  pub clone_from-Counted :
      (self source : SendRight) (s : S)
      → 0 < h.refs s self.name p.right_send
      → self.name ≢ source.name
      → Returns
          (λ r.
            (r.0.name ≡ source.name)
            × (h.refs r.1 source.name p.right_send ≡ h.refs s source.name p.right_send)
            × (h.refs r.1 self.name p.right_send ≡ h.refs s self.name p.right_send + 1))
          (Rights.clone_from p k self source s)
  unfolding Rights.clone_from Rights.mod_refs
  clone_from-Counted self source s held ne' =
      rw
        (
          wrapper_held s self.name p.right_send (pos 1) ne held tt,
          (==_iff p.kern_success p.kern_success).1 refl,
        )
        (returns (
          refl,
          ground (arith, h.counted_up s self.name p.right_send 1 ne held source.name p.right_send),
          ground (arith, h.counted_up s self.name p.right_send 1 ne held self.name p.right_send),
        ))
    where
      ne : p.right_send ≢ p.right_receive
      ne = port_right-ne-receive send tt
