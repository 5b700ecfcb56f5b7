-- ===== src/Rights/Ledger.antt =====
-- The references that a program's wrappers own, what can happen to them, and what it means that
-- each of them is held.
use mach_ports_rs.Prelude.{
  ℕ, ◌+◌, ◌-◌, ◌<◌, ◌≤◌, ◌≡◌, ◌≢◌, ◌⊎◌, inl, inr, refl, ◌==◌, if◌then◌else◌, List, [], ◌∷◌, ◌++◌,
  ok, Returns, arith,
}
use mach_ports_rs.Abi.{Platform}
use mach_ports_rs.Kernel.{Kernel, HasRefs}
use mach_ports_rs.Rights
use mach_ports_rs.Rights.{
  RightKind, BaseSendRight, Right, send, send_once, recv, port_right, from_raw_name,
}
use mach_ports_rs.Rights.Counts.{Counted}

-- A `SendRight` or a `SendOnceRight` that the program holds.
pub data Owned : Type 0 where
  owns_send owns_send_once : ℕ → Owned

abbrev pub kind_of : Owned → RightKind
kind_of (owns_send name) = send
kind_of (owns_send_once name) = send_once

abbrev pub name_of : Owned → ℕ
name_of (owns_send name) = name
name_of (owns_send_once name) = name

pub kind_of-BaseSendRight : (w : Owned) → BaseSendRight (kind_of w)
kind_of-BaseSendRight (owns_send name) = tt
kind_of-BaseSendRight (owns_send_once name) = tt

abbrev pub right_of : (w : Owned) → Right (kind_of w)
right_of w = from_raw_name (name_of w)

-- Whether the wrapper owns a reference to a right of the kind under the name, as a number.
abbrev pub owns : Owned → (name : ℕ) → RightKind → ℕ
owns (owns_send n) m send = if m == n then 1 else 0
owns (owns_send_once n) m send_once = if m == n then 1 else 0
owns _ m _ = 0

-- The references to a right that the wrappers own.
abbrev pub owned : List Owned → (name : ℕ) → RightKind → ℕ
owned [] m kind = 0
owned (w ∷ ws) m kind = owns w m kind + owned ws m kind

pub owned-middle :
    (front : List Owned) (w : Owned) (back : List Owned) (m : ℕ) (kind : RightKind)
    → owned (front ++ (w ∷ back)) m kind ≡ owns w m kind + owned (front ++ back) m kind
owned-middle [] w back m kind = refl
owned-middle (v ∷ front) w back m kind = omega (arith, owned-middle front w back m kind)

module _ {S : Type 0} {p : Platform} {k : Kernel S} (h : HasRefs p k) where
  -- The name has its rights, among them those that the wrappers own.
  abbrev pub Alive : List Owned → S → ℕ → Type 0
  Alive ws s m =
      (owned ws m send ≤ h.refs s m p.right_send)
      × (owned ws m send_once ≤ h.refs s m p.right_send_once)

  -- The port has died: the references that the wrappers own are to the dead name.
  abbrev pub Dead : List Owned → S → ℕ → Type 0
  Dead ws s m =
      (h.refs s m p.right_send ≡ 0)
      × (h.refs s m p.right_send_once ≡ 0)
      × (owned ws m send + owned ws m send_once ≤ h.refs s m p.right_dead_name)

  abbrev pub IsCovered : List Owned → S → Type 0
  IsCovered ws s = (m : ℕ) → Alive ws s m ⊎ Dead ws s m

  -- What happens to the wrappers of a program: it drops or clones one, makes one of a receive right,
  -- whose name is then no dead one, gives one up by `into_raw_name`, makes one by `from_raw_name` of
  -- a reference that no other wrapper owns, a port dies, which turns the references under its name into references to a dead
  -- name, or other code runs, which leaves the program's own references.
  pub data Step : List Owned → S → List Owned → S → Type 0 where
    dropped :
        {s s' : S} (front : List Owned) (w : Owned) (back : List Owned)
        → Rights.drop p k (right_of w) s ≡ ok (tt, s')
        → Step (front ++ (w ∷ back)) s (front ++ back) s'
    cloned :
        {s s' : S} (front : List Owned) (name copy : ℕ) (back : List Owned)
        → Rights.clone p k (from_raw_name name) s ≡ ok (from_raw_name copy, s')
        → Step
            (front ++ (owns_send name ∷ back))
            s
            (owns_send copy ∷ (front ++ (owns_send name ∷ back)))
            s'
    made :
        {s s' : S} (ws : List Owned) (port copy : ℕ)
        → h.refs s port p.right_dead_name ≡ 0
        → Rights.make_send p k (from_raw_name port) s ≡ ok (from_raw_name copy, s')
        → Step ws s (owns_send copy ∷ ws) s'
    given_up :
        {s : S} (front : List Owned) (w : Owned) (back : List Owned)
        → Step (front ++ (w ∷ back)) s (front ++ back) s
    adopted :
        {s : S} (ws : List Owned) (w : Owned)
        → owned ws (name_of w) (kind_of w) < h.refs s (name_of w) (port_right p (kind_of w))
        → Step ws s (w ∷ ws) s
    died :
        {s s' : S} (ws : List Owned) (name : ℕ)
        → h.refs s' name p.right_send ≡ 0
        → h.refs s' name p.right_send_once ≡ 0
        → h.refs s name p.right_send
            + h.refs s name p.right_send_once
            + h.refs s name p.right_dead_name
          ≤ h.refs s' name p.right_dead_name
        → ((m r : ℕ) → m ≢ name → h.refs s' m r ≡ h.refs s m r)
        → Step ws s ws s'
    others : {s s' : S} (ws : List Owned) → IsCovered ws s' → Step ws s ws s'

  pub data Reach (s₀ : S) : List Owned → S → Type 0 where
    start : Reach s₀ [] s₀
    later : {ws ws' : List Owned} {s s' : S} → Reach s₀ ws s → Step ws s ws' s' → Reach s₀ ws' s'

  -- The right of the wrapper is held, or else its dead name is.
  abbrev pub IsHeld : S → Owned → Type 0
  IsHeld s w =
      (0 < h.refs s (name_of w) (port_right p (kind_of w)))
      ⊎ ((h.refs s (name_of w) (port_right p (kind_of w)) ≡ 0)
          × (0 < h.refs s (name_of w) p.right_dead_name))

  -- Dropping the wrapper takes one reference from the right under its name and touches no other
  -- count.
  abbrev pub TakesOne : S → Owned → (right : ℕ) → Type 0
  TakesOne s w right =
      Returns
        (λ q. Counted (h.refs s) (h.refs q.1) (name_of w) right (h.refs s (name_of w) right - 1))
        (Rights.drop p k (right_of w) s)

  pub held :
      {s : S} (front : List Owned) (w : Owned) (back : List Owned)
      → Alive (front ++ (w ∷ back)) s (name_of w)
      → 0 < h.refs s (name_of w) (port_right p (kind_of w))
  held front (owns_send name) back c =
      ground (arith, c.0, owned-middle front (owns_send name) back name send)
  held front (owns_send_once name) back c =
      ground (arith, c.1, owned-middle front (owns_send_once name) back name send_once)

  pub gone :
      {s : S} (front : List Owned) (w : Owned) (back : List Owned)
      → Dead (front ++ (w ∷ back)) s (name_of w)
      → (h.refs s (name_of w) (port_right p (kind_of w)) ≡ 0)
        × (0 < h.refs s (name_of w) p.right_dead_name)
  gone front (owns_send name) back c =
      (c.0, ground (arith, c.2, owned-middle front (owns_send name) back name send))
  gone front (owns_send_once name) back c =
      (c.1, ground (arith, c.2, owned-middle front (owns_send_once name) back name send_once))

  pub covered-IsHeld :
      {s : S} (front : List Owned) (w : Owned) (back : List Owned)
      → Alive (front ++ (w ∷ back)) s (name_of w) ⊎ Dead (front ++ (w ∷ back)) s (name_of w)
      → IsHeld s w
  covered-IsHeld front w back (inl c) = inl (held front w back c)
  covered-IsHeld front w back (inr c) = inr (gone front w back c)
