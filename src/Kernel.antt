-- ===== src/Kernel.antt =====
-- The kernel calls of rights.rs and msg/ool.rs: functions of mach2 and of the kernel behind it, which
-- are parameters of the model, on a state that is a parameter too. Also the monad of code that calls
-- them, and what Mach documents of the reference counts of port rights.
use mathlib.Core.Path.{fun_ext}
use mach_ports_rs.Prelude.{
  ℕ, ◌+◌, ◌-◌, ◌<◌, ◌≡◌, ◌≢◌, refl, List, ℤ, pos, negsuc, Outcome, ok, panic, undefined, Returns,
  returns, ◌&&◌, ◌==◌, if◌then◌else◌,
}
use mach_ports_rs.Abi.{Platform}
use mach_ports_rs.Buffer.{Header}

-- What `mach_msg` is called with: the message to send, or the name and the limit of a receive.
pub record MsgCall : Type 0 where
  pub header : Header
  pub bytes : List ℕ
  pub option : ℕ
  pub send_size : ℕ
  pub rcv_size : ℕ
  pub rcv_name : ℕ

-- The header and the bytes that a received message puts into the memory that it is given.
pub record Received : Type 0 where
  pub header : Header
  pub bytes : List ℕ

-- Each call returns its `kern_return_t`, what it writes through its pointers, and the new state.
-- Results are the bit patterns of their 32 bits.
pub record Kernel (S : Type 0) : Type 0 where
  pub mach_port_mod_refs : (name right : ℕ) (delta : ℤ) → S → ℕ × S
  pub mach_port_allocate : (right : ℕ) → S → ℕ × ℕ × S
  pub mach_port_insert_right : (name poly disposition : ℕ) → S → ℕ × S
  pub mach_msg : MsgCall → S → ℕ × Received × S
  pub mach_vm_allocate : (size flags : ℕ) → S → ℕ × ℕ × S
  pub mach_vm_deallocate : (address size : ℕ) → S → ℕ × S

-- Code that calls the kernel.
abbrev pub M : Type 0 → Type 0 → Type 0
M S A = S → Outcome (A × S)

abbrev pub after : {S A B : Type 0} → Outcome (A × S) → (A → M S B) → Outcome (B × S)
after (ok (a, s)) f = f a s
after panic f = panic
after undefined f = undefined

infixl 5 ◌>>=◌ ◌>>◌
abbrev pub ◌>>=◌ : {S A B : Type 0} → M S A → (A → M S B) → M S B
◌>>=◌ m f s = after (m s) f

abbrev pub ◌>>◌ : {S B : Type 0} → M S (Unit {0}) → M S B → M S B
◌>>◌ m k s = after (m s) (λ _. k)

abbrev pub pure : {S A : Type 0} → A → M S A
pure a s = ok (a, s)

-- Code that makes no call.
abbrev pub lift : {S A : Type 0} → Outcome A → M S A
lift (ok a) s = ok (a, s)
lift panic s = panic
lift undefined s = undefined

pub after-pure :
    {S A B : Type 0} (o : Outcome (Unit {0} × S)) (a : A) (f : A → M S B)
    → after (after o (λ _. pure a)) f ≡ after o (λ _. f a)
after-pure (ok (tt, s)) a f = refl
after-pure panic a f = refl
after-pure undefined a f = refl

pub Returns-after :
    {S A B : Type 0} {P : A × S → Type 0} {Q : B × S → Type 0} {o : Outcome (A × S)}
    → Returns P o
    → (f : A → M S B) → ((q : A × S) → P q → Returns Q (f q.0 q.1))
    → Returns Q (after o f)
Returns-after (returns h) f next = next _ h

-- What code that makes no call returns, in the state that it is run in.
pub Returns-lift :
    {S A : Type 0} {P : A → Type 0} {o : Outcome A} (s : S)
    → Returns P o
    → Returns (λ q. P q.0 × (q.1 ≡ s)) (lift o s)
Returns-lift s (returns h) = returns (h, refl)

-- Two calls and a value, and what is done with the value.
pub seq-pure :
    {S A B : Type 0} (m n : M S (Unit {0})) (a : A) (f : A → M S B)
    → (m >> (n >> pure a)) >>= f ≡ (m >> (n >> f a))
seq-pure {S} {A} {B} m n a f = fun_ext λ s. after_both (m s)
  where
    after_both :
        (o : Outcome (Unit {0} × S))
        → after (after o (λ u. n >> pure a)) f ≡ after o (λ u. n >> f a)
    after_both (ok (tt, s)) = after-pure (n s) a f
    after_both panic = refl
    after_both undefined = refl

pub seq_assoc :
    {S B : Type 0} (m n : M S (Unit {0})) (f : M S B) → ((m >> n) >> f) ≡ (m >> (n >> f))
seq_assoc {S} {B} m n f = fun_ext λ s. after_both (m s)
  where
    after_both :
        (o : Outcome (Unit {0} × S)) → after (after o (λ u. n)) (λ u. f) ≡ after o (λ u. n >> f)
    after_both (ok (tt, s)) = refl
    after_both panic = refl
    after_both undefined = refl

pub seq-unit : {S : Type 0} (m : M S (Unit {0})) → (m >> pure tt) ≡ m
seq-unit {S} m = fun_ext λ s. after_unit (m s)
  where
    after_unit : (o : Outcome (Unit {0} × S)) → after o (λ u. pure tt) ≡ o
    after_unit (ok (tt, s)) = refl
    after_unit panic = refl
    after_unit undefined = refl

abbrev pub call : {S A : Type 0} → (S → A × S) → M S A
call f s = ok (f s)

-- The count does not fall below 0.
abbrev pub IsCovered : ℤ → ℕ → Type 0
IsCovered (pos n) count = Unit
IsCovered (negsuc n) count = n < count

-- The reference counts that `mach_port_mod_refs` is documented to keep, for the rights that another
-- right does not depend on: a live right's count changes by the delta as long as it stays at 0 or
-- above, no other count changes, and a right that is not held under the
-- name of another right is KERN_INVALID_RIGHT.
pub record HasRefs {S : Type 0} (p : Platform) (k : Kernel S) : Type 0 where
  pub refs : S → (name right : ℕ) → ℕ
  pub held :
      (s : S) (name right : ℕ) (delta : ℤ)
      → right ≢ p.right_receive
      → 0 < refs s name right
      → IsCovered delta (refs s name right)
      → (k.mach_port_mod_refs name right delta s).0 ≡ p.kern_success
  pub counted_up :
      (s : S) (name right n : ℕ)
      → right ≢ p.right_receive
      → 0 < refs s name right
      → (m r : ℕ)
      → refs (k.mach_port_mod_refs name right (pos n) s).1 m r
        ≡ (if m == name && r == right then refs s m r + n else refs s m r)
  pub counted_down :
      (s : S) (name right n : ℕ)
      → right ≢ p.right_receive
      → n < refs s name right
      → (m r : ℕ)
      → refs (k.mach_port_mod_refs name right (negsuc n) s).1 m r
        ≡ (if m == name && r == right then refs s m r - (n + 1) else refs s m r)
  pub not_held :
      (s : S) (name right : ℕ) (delta : ℤ)
      → right ≢ p.right_receive
      → refs s name right ≡ 0
      → (other : ℕ) → 0 < refs s name other
      → k.mach_port_mod_refs name right delta s ≡ (p.kern_invalid_right, s)
