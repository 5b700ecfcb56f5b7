-- ===== src/Prelude/Runs.antt =====
-- What a call of Rust code comes to, and machine arithmetic under both build profiles.
use Prim.Native.Nat.{ℕ, ◌+◌, ◌-◌, ◌%◌, ◌^◌, ◌≤◌, ◌<◌}
use mathlib.Core.Path.{◌≡◌, refl, subst}
use mathlib.Core.Bool.{Bool, true, false}
use mathlib.Core.Option.{Option, none, some}
use native.Mathlib.Omega.{arith}
use mach_ports_rs.Prelude.Tests.{ltb, if◌then◌else◌, ltb_iff}

-- A value, a panic, or undefined behaviour (an access outside an allocation, a read of memory
-- that was never written).
pub data Outcome {ℓ} (A : Type ℓ) : Type ℓ where
  ok : A → Outcome A
  panic : Outcome A
  undefined : Outcome A

infixl 5 ◌>>=◌ ◌>>◌
abbrev pub ◌>>=◌ {ℓ κ} : {A : Type ℓ} {B : Type κ} → Outcome A → (A → Outcome B) → Outcome B
ok a >>= f = f a
panic >>= f = panic
undefined >>= f = undefined

abbrev pub ◌>>◌ {ℓ} : {B : Type ℓ} → Outcome (Unit {0}) → Outcome B → Outcome B
m >> k = m >>= λ _. k

-- `assert!`
abbrev pub assert : Bool → Outcome (Unit {0})
assert true = ok tt
assert false = panic

-- `Option::unwrap`
abbrev pub unwrap {ℓ} : {A : Type ℓ} → Option A → Outcome A
unwrap (some a) = ok a
unwrap none = panic

-- An access that is undefined where it is not possible.
abbrev pub access {ℓ} : {A : Type ℓ} → Option A → Outcome A
access (some a) = ok a
access none = undefined

-- In a debug build an overflow and a failed `debug_assert!` panic; in a release build the first
-- wraps and the second is not tested.
pub data Profile : Type 0 where
  debug release : Profile

-- What unsafe code relies on.
abbrev pub require : Bool → Outcome (Unit {0})
require true = ok tt
require false = undefined

abbrev pub debug_assert : Profile → Bool → Outcome (Unit {0})
debug_assert debug b = assert b
debug_assert release b = ok tt

pub debug_assert-ok : (p : Profile) {b : Bool} → b ≡ true → debug_assert p b ≡ ok tt
debug_assert-ok debug e = rw e
debug_assert-ok release e = refl

abbrev pub wrapped : Profile → ℕ → Outcome ℕ
wrapped debug n = panic
wrapped release n = ok n

-- `a + b` and `a - b` of `w`-bit words.
unfoldable pub add_word : Profile → ℕ → ℕ → ℕ → Outcome ℕ
add_word p w a b = if ltb (a + b) (2 ^ w) then ok (a + b) else wrapped p ((a + b) % 2 ^ w)

unfoldable pub sub_word : Profile → ℕ → ℕ → ℕ → Outcome ℕ
sub_word p w a b = if ltb a b then wrapped p ((a + 2 ^ w - b) % 2 ^ w) else ok (a - b)

-- `TryFrom` into a `w`-bit word, and `checked_add`.
unfoldable pub try_into : ℕ → ℕ → Option ℕ
try_into w n = if ltb n (2 ^ w) then some n else none

unfoldable pub checked_add : ℕ → ℕ → ℕ → Option ℕ
checked_add w a b = if ltb (a + b) (2 ^ w) then some (a + b) else none

pub add_word-ok : (p : Profile) (w a b : ℕ) → a + b < 2 ^ w → add_word p w a b ≡ ok (a + b)
unfolding add_word
add_word-ok p w a b h = rw ((ltb_iff (a + b) (2 ^ w)).1 h)

pub sub_word-ok : (p : Profile) (w a b : ℕ) → b ≤ a → sub_word p w a b ≡ ok (a - b)
unfolding sub_word
sub_word-ok p w a b h = ground arith

pub try_into-some : (w n : ℕ) → n < 2 ^ w → try_into w n ≡ some n
unfolding try_into
try_into-some w n h = rw ((ltb_iff n (2 ^ w)).1 h)

pub checked_add-some : (w a b : ℕ) → a + b < 2 ^ w → checked_add w a b ≡ some (a + b)
unfolding checked_add
checked_add-some w a b h = rw ((ltb_iff (a + b) (2 ^ w)).1 h)

-- The call returns, and with a value of which `P` holds.
pub data Returns {A : Type 0} (P : A → Type 0) : Outcome A → Type 0 where
  returns : {a : A} → P a → Returns P (ok a)

module _ {A B : Type 0} {P : A → Type 0} {Q : B → Type 0} where
  pub Returns-bind :
      {m : Outcome A} {k : A → Outcome B}
      → Returns P m
      → ((a : A) → P a → Returns Q (k a))
      → Returns Q (m >>= k)
  Returns-bind (returns h) next = next _ h

-- What holds of a value that a call returns.
pub Returns-ok :
    {A : Type 0} {P : A → Type 0} {m : Outcome A} {a : A} → Returns P m → m ≡ ok a → P a
Returns-ok {P} (returns {a = b} h) e = subst P (cc) h

pub Returns-mono :
    {A : Type 0} {P Q : A → Type 0} {m : Outcome A}
    → Returns P m
    → ((a : A) → P a → Q a)
    → Returns Q m
Returns-mono (returns h) weaken = returns (weaken _ h)

-- The outcome is not `undefined`: the call panics, or returns a value of which `P` holds.
pub data Safely {A : Type 0} (P : A → Type 0) : Outcome A → Type 0 where
  safely : {a : A} → P a → Safely P (ok a)
  stopped : Safely P panic

abbrev pub IsDefined : {A : Type 0} → Outcome A → Type 0
IsDefined = Safely (λ _. Unit)

module _ {A B : Type 0} {P : A → Type 0} {Q : B → Type 0} where
  pub Safely-bind :
      {m : Outcome A} {k : A → Outcome B}
      → Safely P m
      → ((a : A) → m ≡ ok a → P a → Safely Q (k a))
      → Safely Q (m >>= k)
  Safely-bind (safely {a} h) next = next a refl h
  Safely-bind stopped next = stopped

module _ {B : Type 0} {Q : B → Type 0} where
  pub Safely-assert :
      (b : Bool) {m : Outcome B} → (b ≡ true → Safely Q m) → Safely Q (assert b >> m)
  Safely-assert true next = next refl
  Safely-assert false next = stopped

  pub Safely-debug_assert :
      (p : Profile) (b : Bool) {m : Outcome B} → Safely Q m → Safely Q (debug_assert p b >> m)
  Safely-debug_assert debug true h = h
  Safely-debug_assert debug false h = stopped
  Safely-debug_assert release b h = h

  pub Safely-if :
      (b : Bool) {m n : Outcome B} → Safely Q m → Safely Q n → Safely Q (if b then m else n)
  Safely-if true hm hn = hm
  Safely-if false hm hn = hn

pub unwrap-IsDefined : {A : Type 0} (o : Option A) → IsDefined (unwrap o)
unwrap-IsDefined none = stopped
unwrap-IsDefined (some a) = safely tt

pub sub_word-IsDefined : (profile : Profile) (w a b : ℕ) → IsDefined (sub_word profile w a b)
unfolding sub_word
sub_word-IsDefined debug w a b = Safely-if (ltb a b) stopped (safely tt)
sub_word-IsDefined release w a b = Safely-if (ltb a b) (safely tt) (safely tt)
