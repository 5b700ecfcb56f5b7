-- ===== src/Rights/Shifts.antt =====
-- What a reference more or less of a right does to the references that wrappers own.
use mach_ports_rs.Prelude.{
  Bool-cases, ℕ, ◌+◌, ◌-◌, ◌<◌, ◌≡◌, ◌⊎◌, inl, inr, ◌==◌, List, ◌∷◌, ◌++◌, arith,
}
use mach_ports_rs.Abi.{Platform, IsDarwin}
use mach_ports_rs.Kernel.{Kernel, HasRefs}
use mach_ports_rs.Rights.{send, send_once, port_right}
use mach_ports_rs.Rights.Counts.{Counted}
use mach_ports_rs.Rights.Ledger.{
  Owned, owns_send, owns_send_once, kind_of, name_of, owns, owned, owned-middle, Alive, Dead,
}

rights :
    {p : Platform}
    → IsDarwin p
    → (p.right_send ≡ 0) × (p.right_send_once ≡ 2) × (p.right_dead_name ≡ 4)
rights d = (d.right_send, d.right_send_once, d.right_dead_name)

owned_both :
    (front : List Owned) (w : Owned) (back : List Owned) (m : ℕ)
    → (owned (front ++ (w ∷ back)) m send ≡ owns w m send + owned (front ++ back) m send)
      × (owned (front ++ (w ∷ back)) m send_once
          ≡ owns w m send_once + owned (front ++ back) m send_once)
owned_both front w back m =
    (owned-middle front w back m send, owned-middle front w back m send_once)

module _ {S : Type 0} {p : Platform} (d : IsDarwin p) {k : Kernel S} (h : HasRefs p k) where
  -- What is known of each right of a name, at the three that matter.
  each_right :
      {F : ℕ → ℕ → Type 0}
      → ((m r : ℕ) → F m r)
      → (m : ℕ) → F m p.right_send × F m p.right_send_once × F m p.right_dead_name
  each_right known m = (known m p.right_send, known m p.right_send_once, known m p.right_dead_name)

  -- A reference of the right that a wrapper owned is gone, and so is the wrapper.
  pub less-Alive :
      {s s' : S} (front : List Owned) (w : Owned) (back : List Owned)
      → Counted
          (h.refs s)
          (h.refs s')
          (name_of w)
          (port_right p (kind_of w))
          (h.refs s (name_of w) (port_right p (kind_of w)) - 1)
      → (m : ℕ) → Alive h (front ++ (w ∷ back)) s m ⊎ Dead h (front ++ (w ∷ back)) s m
      → Alive h (front ++ back) s' m ⊎ Dead h (front ++ back) s' m
  less-Alive front (owns_send n) back after m (inl c) =
      inl (ground (arith, rights d, each_right after m, owned_both front (owns_send n) back m, c))
  less-Alive front (owns_send_once n) back after m (inl c) =
      inl (
        ground (arith, rights d, each_right after m, owned_both front (owns_send_once n) back m, c))
  less-Alive front (owns_send n) back after m (inr c) =
      inr (ground (arith, rights d, each_right after m, owned_both front (owns_send n) back m, c))
  less-Alive front (owns_send_once n) back after m (inr c) =
      inr (
        ground (arith, rights d, each_right after m, owned_both front (owns_send_once n) back m, c))

  -- The same of the dead name.
  pub less-Dead :
      {s s' : S} (front : List Owned) (w : Owned) (back : List Owned)
      → Counted
          (h.refs s)
          (h.refs s')
          (name_of w)
          p.right_dead_name
          (h.refs s (name_of w) p.right_dead_name - 1)
      → (m : ℕ) → Alive h (front ++ (w ∷ back)) s m ⊎ Dead h (front ++ (w ∷ back)) s m
      → Alive h (front ++ back) s' m ⊎ Dead h (front ++ back) s' m
  less-Dead front (owns_send n) back after m (inl c) =
      inl (ground (arith, rights d, each_right after m, owned_both front (owns_send n) back m, c))
  less-Dead front (owns_send n) back after m (inr c) =
      inr (ground (arith, rights d, each_right after m, owned_both front (owns_send n) back m, c))
  less-Dead front (owns_send_once n) back after m (inl c) =
      inl (
        ground (arith, rights d, each_right after m, owned_both front (owns_send_once n) back m, c))
  less-Dead front (owns_send_once n) back after m (inr c) =
      inr (
        ground (arith, rights d, each_right after m, owned_both front (owns_send_once n) back m, c))

  pub more-Alive :
      {s s' : S} (ws : List Owned) (n : ℕ)
      → Counted (h.refs s) (h.refs s') n p.right_send (h.refs s n p.right_send + 1)
      → (0 < h.refs s n p.right_send) ⊎ (h.refs s n p.right_dead_name ≡ 0)
      → (m : ℕ) → Alive h ws s m ⊎ Dead h ws s m
      → Alive h (owns_send n ∷ ws) s' m ⊎ Dead h (owns_send n ∷ ws) s' m
  more-Alive ws n after live m (inl c) = inl (ground (arith, rights d, each_right after m, c))
  more-Alive {s} ws n after live m (inr c) = elim (Bool-cases (m == n)) [
    | inl same ↦ inl (ground (arith, rights d, each_right after m, c, live, same))
    | inr other ↦ inr (ground (arith, each_right after m, c, other))
  ]

  pub more-Dead :
      {s s' : S} (ws : List Owned) (n : ℕ)
      → Counted (h.refs s) (h.refs s') n p.right_dead_name (h.refs s n p.right_dead_name + 1)
      → h.refs s n p.right_send ≡ 0
      → 0 < owned ws n send
      → (m : ℕ) → Alive h ws s m ⊎ Dead h ws s m
      → Alive h (owns_send n ∷ ws) s' m ⊎ Dead h (owns_send n ∷ ws) s' m
  more-Dead ws n after none_left some_owned m (inl c) =
      inl (ground (arith, rights d, each_right after m, c))
  more-Dead ws n after none_left some_owned m (inr c) =
      inr (ground (arith, rights d, each_right after m, c))

  pub given_up-IsCovered :
      {s : S} (front : List Owned) (w : Owned) (back : List Owned) (m : ℕ)
      → Alive h (front ++ (w ∷ back)) s m ⊎ Dead h (front ++ (w ∷ back)) s m
      → Alive h (front ++ back) s m ⊎ Dead h (front ++ back) s m
  given_up-IsCovered front w back m (inl c) = inl (ground (arith, owned_both front w back m, c))
  given_up-IsCovered front w back m (inr c) = inr (ground (arith, owned_both front w back m, c))

  pub adopted-IsCovered :
      {s : S} (ws : List Owned) (w : Owned)
      → owned ws (name_of w) (kind_of w) < h.refs s (name_of w) (port_right p (kind_of w))
      → (m : ℕ) → Alive h ws s m ⊎ Dead h ws s m
      → Alive h (w ∷ ws) s m ⊎ Dead h (w ∷ ws) s m
  adopted-IsCovered ws (owns_send n) lt m (inl c) = inl (ground (arith, c, lt))
  adopted-IsCovered ws (owns_send_once n) lt m (inl c) = inl (ground (arith, c, lt))
  adopted-IsCovered ws (owns_send n) lt m (inr c) = inr (ground (arith, c, lt))
  adopted-IsCovered ws (owns_send_once n) lt m (inr c) = inr (ground (arith, c, lt))
