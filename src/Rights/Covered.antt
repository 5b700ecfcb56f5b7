-- ===== src/Rights/Covered.antt =====
-- Any run of a program that holds wrappers: every reference that a wrapper owns stays there for it,
-- with the right or, once the port has died, with the dead name.
use mach_ports_rs.Prelude.{
  Bool-cases, ℕ, ◌+◌, ◌<◌, ◌≤◌, ◌≡◌, ◌≢◌, ◌⊎◌, inl, inr, ◌==◌, List, ◌∷◌, ◌++◌, ok, Returns-ok,
  arith,
}
use mach_ports_rs.Abi.{Platform, IsDarwin}
use mach_ports_rs.Kernel.{Kernel, HasRefs}
use mach_ports_rs.Rights
use mach_ports_rs.Rights.{
  RightKind, BaseSendRight, Right, send, send_once, recv, port_right, from_raw_name,
}
use mach_ports_rs.Rights.Ports.{MakesSends, made-Counted}
use mach_ports_rs.Rights.Counts.{drop-Counted, drop_dead-Counted, clone_dead-Counted, clone-drop}
use mach_ports_rs.Rights.Ledger.{
  Owned, owns_send, kind_of, name_of, kind_of-BaseSendRight, right_of, owned, owned-middle, Alive,
  Dead, IsCovered, Step, dropped, cloned, made, given_up, adopted, died, others, Reach, start,
  later, IsHeld, TakesOne, covered-IsHeld,
}
use mach_ports_rs.Rights.Shifts.{
  less-Alive, less-Dead, more-Alive, more-Dead, given_up-IsCovered, adopted-IsCovered,
}

module _ {S : Type 0} {p : Platform} (d : IsDarwin p) {k : Kernel S} (h : HasRefs p k)
    (i : MakesSends h) where
  dropped-IsCovered :
      {s s' : S} (front : List Owned) (w : Owned) (back : List Owned)
      → Rights.drop p k (right_of w) s ≡ ok (tt, s')
      → IsCovered h (front ++ (w ∷ back)) s
      → IsHeld h s w
      → IsCovered h (front ++ back) s'
  dropped-IsCovered {s} front w back e c (inl more) m =
      less-Alive d h front w back
        (Returns-ok (drop-Counted d k h (right_of w) s (kind_of-BaseSendRight w) more) e) m (c m)
  dropped-IsCovered {s} front w back e c (inr (none_left, dead)) m =
      less-Dead d h front w back
        (Returns-ok
          (drop_dead-Counted d k h (right_of w) s (kind_of-BaseSendRight w) none_left dead) e)
        m (c m)

  cloned-IsCovered :
      {s s' : S} (ws : List Owned) (name copy : ℕ)
      → Rights.clone p k (from_raw_name name) s ≡ ok (from_raw_name copy, s')
      → 0 < owned ws name send
      → IsCovered h ws s
      → IsHeld h s (owns_send name)
      → IsCovered h (owns_send copy ∷ ws) s'
  cloned-IsCovered {s} {s'} ws name copy e some_owned c (inl more) m =
      let after = Returns-ok (clone-drop d k h (from_raw_name name) s more) e in
      rw after.0 (more-Alive d h ws name after.1 (inl more) m (c m))
  cloned-IsCovered {s} {s'} ws name copy e some_owned c (inr (none_left, dead)) m =
      let after = Returns-ok (clone_dead-Counted d k h (from_raw_name name) s none_left dead) e in
      rw after.0 (more-Dead d h ws name after.1 none_left some_owned m (c m))

  made-IsCovered :
      {s s' : S} (ws : List Owned) (port copy : ℕ)
      → h.refs s port p.right_dead_name ≡ 0
      → Rights.make_send p k (from_raw_name port) s ≡ ok (from_raw_name copy, s')
      → IsCovered h ws s
      → IsCovered h (owns_send copy ∷ ws) s'
  made-IsCovered {s} {s'} ws port copy live e c m =
      let after = made-Counted d h i (from_raw_name port) (from_raw_name copy) s s' e in
      rw after.0 (more-Alive d h ws port after.1 (inr live) m (c m))

  died-IsCovered :
      {s s' : S} (ws : List Owned) (name : ℕ)
      → h.refs s' name p.right_send ≡ 0
      → h.refs s' name p.right_send_once ≡ 0
      → h.refs s name p.right_send
          + h.refs s name p.right_send_once
          + h.refs s name p.right_dead_name
        ≤ h.refs s' name p.right_dead_name
      → ((m r : ℕ) → m ≢ name → h.refs s' m r ≡ h.refs s m r)
      → IsCovered h ws s
      → IsCovered h ws s'
  died-IsCovered {s} {s'} ws name send_gone once_gone all same c m = elim (Bool-cases (m == name)) [
    | inl at ↦ inr (ground (arith, c m, at, send_gone, once_gone, all))
    | inr other ↦ unchanged (ground (arith, other)) (c m)
  ]
    where
      unchanged : m ≢ name → Alive h ws s m ⊎ Dead h ws s m → Alive h ws s' m ⊎ Dead h ws s' m
      unchanged ne (inl a) =
          inl (ground (arith, a, same m p.right_send ne, same m p.right_send_once ne))
      unchanged ne (inr a) = inr (
          ground (
            arith,
            a,
            same m p.right_send ne,
            same m p.right_send_once ne,
            same m p.right_dead_name ne,
          ))

  -- No step takes a reference that a wrapper owns.
  Step-IsCovered :
      {ws ws' : List Owned} {s s' : S} → Step h ws s ws' s' → IsCovered h ws s → IsCovered h ws' s'
  Step-IsCovered (dropped front w back e) c =
      dropped-IsCovered front w back e c (covered-IsHeld h front w back (c (name_of w)))
  Step-IsCovered (cloned front name copy back e) c =
      cloned-IsCovered (front ++ (owns_send name ∷ back)) name copy e
        (ground (arith, owned-middle front (owns_send name) back name send)) c
        (covered-IsHeld h front (owns_send name) back (c name))
  Step-IsCovered (made ws port copy live e) c = made-IsCovered ws port copy live e c
  Step-IsCovered (given_up front w back) c = λ m. given_up-IsCovered d h front w back m (c m)
  Step-IsCovered (adopted ws w lt) c = λ m. adopted-IsCovered d h ws w lt m (c m)
  Step-IsCovered (died ws name send_gone once_gone all same) c =
      died-IsCovered ws name send_gone once_gone all same c
  Step-IsCovered (others ws kept) c = kept

  Reach-IsCovered : {s₀ : S} {ws : List Owned} {s : S} → Reach h s₀ ws s → IsCovered h ws s
  Reach-IsCovered start = λ m. inl (ground arith)
  Reach-IsCovered (later reach step) = Step-IsCovered step (Reach-IsCovered reach)

  drop-IsHeld :
      {s : S} (w : Owned)
      → IsHeld h s w
      → ((0 < h.refs s (name_of w) (port_right p (kind_of w)))
          × TakesOne h s w (port_right p (kind_of w)))
        ⊎ ((h.refs s (name_of w) (port_right p (kind_of w)) ≡ 0)
            × (0 < h.refs s (name_of w) p.right_dead_name)
            × TakesOne h s w p.right_dead_name)
  drop-IsHeld {s} w (inl more) =
      inl (more, drop-Counted d k h (right_of w) s (kind_of-BaseSendRight w) more)
  drop-IsHeld {s} w (inr (none_left, dead)) = inr (
    none_left,
    dead,
    drop_dead-Counted d k h (right_of w) s (kind_of-BaseSendRight w) none_left dead,
  )

  -- In every state that a program reaches by dropping, cloning, making, adopting and giving up send
  -- and send once wrappers (making only of names that are not dead), while ports die and other code
  -- leaves the references of the program alone, each wrapper that it still owns has its right held
  -- or else its dead name, and dropping the wrapper takes exactly one reference, from the right in
  -- the first case and from the dead name in the second, and touches no other count, under the
  -- documented behaviour of mach_port_mod_refs and mach_port_insert_right.
  pub live_right-Counted :
      {s₀ : S} {s : S} (front : List Owned) (w : Owned) (back : List Owned)
      → Reach h s₀ (front ++ (w ∷ back)) s
      → ((0 < h.refs s (name_of w) (port_right p (kind_of w)))
          × TakesOne h s w (port_right p (kind_of w)))
        ⊎ ((h.refs s (name_of w) (port_right p (kind_of w)) ≡ 0)
            × (0 < h.refs s (name_of w) p.right_dead_name)
            × TakesOne h s w p.right_dead_name)
  live_right-Counted front w back reach =
      drop-IsHeld w (covered-IsHeld h front w back (Reach-IsCovered reach (name_of w)))
